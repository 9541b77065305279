-- ===== src/Api/Auth.antt =====
-- api/auth.ts.
use distributed_traffic_serv.Base.{String, Option}
use distributed_traffic_serv.Api.Client.{Method, get, post}

pub record RegisterPayload : Type 0 where
  pub email : String
  pub password : String
  pub role : String
  pub region : String
  pub plate_number : Option String

pub record AuthResponse : Type 0 where
  pub access_token : String
  pub token_type : String
  pub user_id : String
  pub role : String

pub record ProfileResponse : Type 0 where
  pub id : String
  pub email : String
  pub role : String
  pub plate_number : Option String
  pub region : Option String

pub record LoginPayload : Type 0 where
  pub email : String
  pub password : String

-- A request: its method, its path below the base URL, and its body.
pub data AuthRequest : Type 0 where
  with_register : Method → String → RegisterPayload → AuthRequest
  with_login : Method → String → LoginPayload → AuthRequest
  bare : Method → String → AuthRequest

unfoldable pub register : RegisterPayload → AuthRequest
register payload = with_register post "/auth/register" payload

unfoldable pub login : String → String → AuthRequest
login email password = with_login post "/auth/login" (record { email = email; password = password })

unfoldable pub get_profile : AuthRequest
get_profile = bare get "/auth/profile"
