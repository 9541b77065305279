-- ===== src/AuthService/Login.antt =====
-- service.py: `authenticate_user` and `get_user_by_id`, and what routes.py answers.
use distributed_traffic_serv.Base.{ℕ, String, ◌<>◌, Option, none, some, if◌then◌else◌}
use distributed_traffic_serv.Access.{
  Outcome, success, refusal, ◌>>=◌, Jwt, create_access_token, verify_token,
}
use distributed_traffic_serv.AuthService.Password.{PwdContext, hashed_part}
use distributed_traffic_serv.AuthService.Accounts.{Account, Tables, find_email, find_id, Keys}
use distributed_traffic_serv.AuthService.Register.{
  RegisterRequest, Surroundings, RegisterError, Registration, Result, registered, raised,
  register_user,
}

-- The first table's row, or else the second's.
unfoldable pub first_of : Option Account → Option Account → Option Account
first_of none replica = replica
first_of (some user) replica = some user

-- The row that a login reads.
unfoldable pub known_email : String → Tables → Option Account
unfolding first_of find_email
known_email email tables =
    first_of (find_email email tables.users) (find_email email tables.replicas)

-- `get_user_by_id`; `none` is UserNotFoundError.
unfoldable pub get_user_by_id : String → Tables → Option Account
unfolding first_of find_id
get_user_by_id id tables = first_of (find_id id tables.users) (find_id id tables.replicas)

-- The row whose password is the one given; `none` is AuthenticationError.
unfoldable pub checked : PwdContext → String → Option Account → Option Account
unfolding hashed_part
checked pwd password none = none
checked pwd password (some user) =
    if pwd.verify (hashed_part password) user.password_hash then some user else none

-- The user that `authenticate_user` returns.
unfoldable pub authenticate_user : PwdContext → (email password : String) → Tables → Option Account
unfolding known_email checked
authenticate_user pwd email password tables = checked pwd password (known_email email tables)

-- UserProfile.
pub record UserProfile : Type 0 where
  pub id : String
  pub email : String
  pub role : String
  pub plate_number : Option String
  pub region : Option String

unfoldable pub profile_of : String → Option Account → Outcome UserProfile
profile_of id none = refusal 404 ("User " <> (id <> " not found"))
profile_of id (some user) = success (record {
  id = user.id;
  email = user.email;
  role = user.role;
  plate_number = user.plate_number;
  region = user.region;
})

module _ (jwt : Jwt) (expiry_minutes : ℕ) where
  -- TokenResponse, less the constant `token_type`.
  pub record TokenResponse : Type 0 where
    pub access_token : jwt.Token
    pub user_id : String
    pub role : String

  -- The token that `authenticate_user` returns.
  unfoldable pub token_of : ℕ → Account → jwt.Token
  unfolding create_access_token
  token_of now user = create_access_token jwt expiry_minutes now user.id user.role user.email

  unfoldable pub token_response : ℕ → Option Account → Outcome TokenResponse
  unfolding token_of
  token_response now none = refusal 401 "Invalid email or password"
  token_response now (some user) =
      success (record { access_token = token_of now user; user_id = user.id; role = user.role })

  -- `login`, at the time `now`.
  unfoldable pub login : PwdContext → ℕ → (email password : String) → Tables → Outcome TokenResponse
  unfolding authenticate_user token_response
  login pwd now email password tables =
      token_response now (authenticate_user pwd email password tables)

  -- `register` behind `authenticate_user`: every exception is a 400.
  unfoldable pub welcomed : ℕ → Account → Option Account → Outcome TokenResponse
  unfolding token_of
  welcomed now user none = refusal 400 "Invalid email or password"
  welcomed now user (some found) =
      success (record { access_token = token_of now found; user_id = user.id; role = user.role })

  -- `register` behind `register_user`.
  unfoldable pub registered_response :
      (RegisterError → String)
      → PwdContext
      → ℕ
      → RegisterRequest
      → Tables
      → Result
      → Outcome TokenResponse
  unfolding authenticate_user welcomed
  registered_response text_of pwd now req tables (raised e) = refusal 400 (text_of e)
  registered_response text_of pwd now req tables (registered user) =
      welcomed now user (authenticate_user pwd req.email req.password tables)

  -- `register`: the account is written, and the answer is a token.
  unfoldable pub register :
      (RegisterError → String)
      → PwdContext
      → ℕ
      → RegisterRequest
      → Surroundings
      → Keys
      → Tables
      → Registration × Outcome TokenResponse
  unfolding register_user registered_response
  register text_of pwd now req env keys tables =
      let r : Registration = register_user pwd req env keys tables in
      (r, registered_response text_of pwd now req r.tables r.result)

  -- `profile`, at the time `now`.
  unfoldable pub profile : ℕ → jwt.Token → Tables → Outcome UserProfile
  unfolding verify_token get_user_by_id profile_of
  profile now token tables =
      verify_token jwt now token >>= λ user. profile_of user.sub (get_user_by_id user.sub tables)
