-- ===== src/Session/Provider.antt =====
-- `AuthProvider`: the effect that runs on mount, `signIn`, `signUp` and `signOut`. The server is
-- what answers a request with its Authorization header; each answer passes the response
-- interceptor first. A promise that rejects is `threw`.
use distributed_traffic_serv.Base.{
  String, Bool, true, false, ◌&&◌, Option, none, some, truthy, if◌then◌else◌, ◌≡◌,
}
use distributed_traffic_serv.Api.Reply.{ApiError, Reply, ok, failed}
use distributed_traffic_serv.Api.Client.{Storage, Browser, bearer, authorization, settle}
use distributed_traffic_serv.Api.Auth.{
  RegisterPayload, AuthResponse, ProfileResponse, AuthRequest, register, login, get_profile,
}
use distributed_traffic_serv.Session.Roles.{
  UserRole, Region, User, role_to_backend, region_to_backend, role_from_backend,
  region_from_backend,
}

-- `JSON.stringify` and `JSON.parse` of the runtime, at users. `parse` is `none` where it throws.
pub record Json : Type 0 where
  pub stringify : User → String
  pub parse : String → Option User

-- What the code relies on: a user is read back as it was written, and the text of an object is
-- not empty.
pub record IsFaithful (json : Json) : Type 0 where
  pub parse-stringify : (u : User) → json.parse (json.stringify u) ≡ some u
  pub stringify-truthy : (u : User) → truthy (json.stringify u) ≡ true

pub record Server : Type 0 where
  pub auth : Option String → AuthRequest → Reply AuthResponse
  pub profile : Option String → AuthRequest → Reply ProfileResponse

-- A tab with the provider in it.
pub record Tab : Type 0 where
  pub browser : Browser
  pub user : Option User
  pub loading : Bool

pub data Outcome : Type 0 where
  returned : Outcome
  threw : ApiError → Outcome

-- A page that has just been loaded over the given storage.
unfoldable pub fresh : Storage → Tab
fresh storage = record {
  browser = record { storage = storage; header = none; leaving = none };
  user = none;
  loading = true;
}

abbrev pub set_token : String → Browser → Browser
set_token token b = record b {
  storage = record (b.storage) { token = some token };
  header = some (bearer token);
}

abbrev pub set_user : String → Browser → Browser
set_user stored b = record b { storage = record (b.storage) { user = some stored } }

abbrev pub drop_session : Browser → Browser
drop_session b = record b { storage = record { token = none; user = none }; header = none }

abbrev pub when_some : Option String → Option String
when_some none = none
when_some (some s) = if truthy s then some s else none

-- `if (plateNumber) payload.plate_number = plateNumber`.
unfoldable pub register_payload :
    String → String → UserRole → Region → Option String → RegisterPayload
register_payload email password role region plate = record {
  email = email;
  password = password;
  role = role_to_backend role;
  region = region_to_backend region;
  plate_number = when_some plate;
}

module _ (json : Json) where
  -- The user of a parsed text; `setLoading(false)` is not reached where `parse` throws.
  unfoldable pub restore : Tab → String → Option User → Option Tab
  restore t token none = none
  restore t token (some u) = some (record {
    browser = record (t.browser) { header = some (bearer token) };
    user = some u;
    loading = false;
  })

  unfoldable pub rehydrate_from : Tab → Option String → Option String → Option Tab
  unfolding restore
  rehydrate_from t (some token) (some stored) =
      if truthy token && truthy stored
      then restore t token (json.parse stored)
      else some (record t { loading = false })
  rehydrate_from t _ _ = some (record t { loading = false })

  -- The effect on mount; `none` if it throws.
  unfoldable pub rehydrate : Tab → Option Tab
  unfolding rehydrate_from
  rehydrate t = rehydrate_from t t.browser.storage.token t.browser.storage.user

  -- Loading the page again.
  unfoldable pub reload : Tab → Option Tab
  unfolding rehydrate fresh
  reload t = rehydrate (fresh t.browser.storage)

  -- `localStorage.setItem('routepass_user', JSON.stringify(userData)); setUser(userData)`.
  unfoldable pub keep_user : User → Tab → Tab
  keep_user u t = record t { browser = set_user (json.stringify u) t.browser; user = some u }

  -- The part of `signIn` behind the answer to the profile request.
  unfoldable pub after_profile : String → AuthResponse → Reply ProfileResponse → Tab → Tab × Outcome
  unfolding keep_user settle
  after_profile email res (failed e) t =
      (record t { browser = settle {A = ProfileResponse} (failed e) t.browser }, threw e)
  after_profile email res (ok profile) t = (
    keep_user
        (record {
          id = res.user_id;
          email = email;
          role = role_from_backend res.role;
          region = region_from_backend profile.region;
          plate_number = profile.plate_number;
        })
        t,
    returned,
  )

  -- The part of `signIn` behind the answer to the login request.
  unfoldable pub after_login : Server → String → Reply AuthResponse → Tab → Tab × Outcome
  unfolding after_profile authorization
  after_login server email (failed e) t =
      (record t { browser = settle {A = AuthResponse} (failed e) t.browser }, threw e)
  after_login server email (ok res) t =
      let t' : Tab = record t { browser = set_token res.access_token t.browser } in
      after_profile email res (server.profile (authorization t'.browser) get_profile) t'

  unfoldable pub sign_in : Server → String → String → Tab → Tab × Outcome
  unfolding after_login
  sign_in server email password t =
      after_login server email (server.auth (authorization t.browser) (login email password)) t

  unfoldable pub after_register :
      String → UserRole → Region → Option String → Reply AuthResponse → Tab → Tab × Outcome
  unfolding keep_user settle
  after_register email role region plate (failed e) t =
      (record t { browser = settle {A = AuthResponse} (failed e) t.browser }, threw e)
  after_register email role region plate (ok res) t = (
    keep_user
        (record {
          id = res.user_id;
          email = email;
          role = role;
          region = region;
          plate_number = plate;
        })
        (record t { browser = set_token res.access_token t.browser }),
    returned,
  )

  unfoldable pub sign_up :
      Server → String → String → UserRole → Region → Option String → Tab → Tab × Outcome
  unfolding after_register register_payload
  sign_up server email password role region plate t =
      after_register email role region plate
        (server.auth (authorization t.browser)
          (register (register_payload email password role region plate)))
        t

-- `signOut`.
unfoldable pub sign_out : Tab → Tab
sign_out t = record t { browser = drop_session t.browser; user = none }
