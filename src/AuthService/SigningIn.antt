-- ===== src/AuthService/SigningIn.antt =====
-- An account that is registered is one to sign in with.
use distributed_traffic_serv.Base.{
  ℕ, ◌+◌, ◌*◌, ◌/◌, ◌≤◌, ◌<◌, ◌≡◌, refl, ap, String, true, false, some, is_some, eq_refl, string_eq,
  arith,
}
use mathlib.Core.Path.{subst}
use distributed_traffic_serv.Access.{
  Outcome, success, refusal, microseconds, Jwt, claims_of, create_access_token, verified,
  verify_token,
}
use distributed_traffic_serv.AuthService.Password.{PwdContext, hashed_part}
use distributed_traffic_serv.AuthService.Accounts.{Account, Tables, find_email, find_id, Keys}
use distributed_traffic_serv.AuthService.Register.{
  RegisterRequest, Surroundings, RegisterError, registered, Registration, new_account, accepts,
  add_user, roll_back, register_user,
}
use distributed_traffic_serv.AuthService.Login.{
  first_of, known_email, get_user_by_id, checked, authenticate_user, UserProfile, profile_of,
  TokenResponse, token_of, token_response, login, register, registered_response, welcomed, profile,
}
use distributed_traffic_serv.AuthService.Registering.{
  completed, claimed_keys, IsFree, Ends, unclaimed, left_claimed, elsewhere, rolled_back,
  unrefreshed, done, register_user-Ends,
}

module _ (pwd : PwdContext) (req : RegisterRequest) (env : Surroundings) (keys : Keys)
    (tables : Tables) where
  -- A registration that returns the account.
  pub record Completes (r : Registration) (user : Account) : Type 0 where
    pub free : IsFree pwd req env keys tables
    pub absent : is_some (find_email req.email tables.replicas) ≡ false
    pub hashed : pwd.hash env.salt (hashed_part req.password) ≡ some user.password_hash
    pub accepted : accepts env user tables ≡ true
    pub account : user ≡ new_account req env user.password_hash
    pub left : r ≡ completed user (claimed_keys pwd req env keys tables) tables

  Ends-registered :
      {r : Registration} (user : Account)
      → Ends pwd req env keys tables r
      → r.result ≡ registered user
      → Completes r user
  unfolding roll_back
  Ends-registered user (unclaimed e s) h = cc
  Ends-registered user (left_claimed e f s) h = cc
  Ends-registered user (elsewhere f s) h = cc
  Ends-registered user (rolled_back x f s a) h = cc
  Ends-registered user (unrefreshed x f a s) h = cc
  Ends-registered user (done x f s hash a) h =
      let same : new_account req env x ≡ user = cc in
      subst
        (Completes
          (completed (new_account req env x) (claimed_keys pwd req env keys tables) tables))
        same
        (record { free = f; absent = s; hashed = hash; accepted = a; account = refl; left = refl })

  pub registered-Completes :
      (user : Account)
      → (register_user pwd req env keys tables).result ≡ registered user
      → Completes (register_user pwd req env keys tables) user
  registered-Completes user h = Ends-registered user (register_user-Ends pwd req env keys tables) h

pub authenticate_user-known :
    (pwd : PwdContext) (email password salt : String) (tables : Tables) (user : Account)
    → known_email email tables ≡ some user
    → pwd.hash salt (hashed_part password) ≡ some user.password_hash
    → authenticate_user pwd email password tables ≡ some user
unfolding authenticate_user checked
authenticate_user-known pwd email password salt tables user e h =
    rw e (rw (pwd.verify-hash salt (hashed_part password) user.password_hash h) refl)

known_email-first :
    (email : String) (user : Account) (tables : Tables)
    → user.email ≡ email
    → known_email email (add_user user tables) ≡ some user
unfolding known_email find_email first_of
known_email-first email user tables e = rw e (rw (eq_refl email) refl)

get_user_by_id-first :
    (user : Account) (tables : Tables) → get_user_by_id user.id (add_user user tables) ≡ some user
unfolding get_user_by_id find_id first_of
get_user_by_id-first user tables = rw (eq_refl user.id) refl

abbrev pub profile_shown : Account → Outcome UserProfile
profile_shown user = success (record {
  id = user.id;
  email = user.email;
  role = user.role;
  plate_number = user.plate_number;
  region = user.region;
})

-- The time at which a token that is given at the time `now` expires.
abbrev pub session_end : (expiry_minutes now : ℕ) → ℕ
session_end expiry_minutes now = (now / microseconds + expiry_minutes * 60) * microseconds

module _ (jwt : Jwt) (minutes : ℕ) where
  pub verify_token-fresh :
      (user : Account) (t at : ℕ)
      → t ≤ at
      → at < session_end minutes t
      → verify_token jwt at (token_of jwt minutes t user)
        ≡ success (claims_of minutes t user.id user.role user.email)
  unfolding verify_token token_of create_access_token verified claims_of
  verify_token-fresh user t at h k =
      rw
        (jwt.decode-encode (claims_of minutes t user.id user.role user.email) at (omega arith)
          (omega arith))
        refl

  pub verify_token-late :
      (user : Account) (t at : ℕ)
      → session_end minutes t ≤ at
      → verify_token jwt at (token_of jwt minutes t user) ≡ refusal 401 "Token expired"
  unfolding verify_token token_of create_access_token verified claims_of
  verify_token-late user t at h =
      rw (jwt.decode_late (claims_of minutes t user.id user.role user.email) at (omega arith)) refl

  pub profile-fresh :
      (user : Account) (t at : ℕ) (tables : Tables)
      → get_user_by_id user.id tables ≡ some user
      → t ≤ at
      → at < session_end minutes t
      → profile jwt minutes at (token_of jwt minutes t user) tables ≡ profile_shown user
  unfolding profile profile_of claims_of
  profile-fresh user t at tables e h k = rw (verify_token-fresh user t at h k) (rw e refl)

  -- From its expiry on, a token that was given at a login is refused, whoever the account is.
  pub profile-late :
      (user : Account) (t at : ℕ) (tables : Tables)
      → session_end minutes t ≤ at
      → profile jwt minutes at (token_of jwt minutes t user) tables ≡ refusal 401 "Token expired"
  unfolding profile
  profile-late user t at tables h = rw (verify_token-late user t at h) refl

  -- The answer that lets an account in.
  abbrev pub welcome : ℕ → Account → Outcome (TokenResponse jwt minutes)
  welcome t user =
      success
        (record { access_token = token_of jwt minutes t user; user_id = user.id; role = user.role })

  pub login-known :
      (pwd : PwdContext) (t : ℕ) (email password salt : String) (tables : Tables) (user : Account)
      → known_email email tables ≡ some user
      → pwd.hash salt (hashed_part password) ≡ some user.password_hash
      → login jwt minutes pwd t email password tables ≡ welcome t user
  unfolding login token_response
  login-known pwd t email password salt tables user e h =
      rw (authenticate_user-known pwd email password salt tables user e h) refl

  module _ (pwd : PwdContext) (req : RegisterRequest) (env : Surroundings) (keys : Keys)
      (tables : Tables) where
    -- A registration that returns the account makes it one to sign in with: the route of the
    -- registration, and on the tables that it leaves a login with the same email and password, answer
    -- with a token of the account, and until that expires the profile behind it is the account's.
    pub registered-signs_in :
        (text_of : RegisterError → String) (user : Account) (t at : ℕ)
        → (register_user pwd req env keys tables).result ≡ registered user
        → t ≤ at
        → at < session_end minutes t
        → ((register jwt minutes text_of pwd t req env keys tables).1 ≡ welcome t user)
          × (login jwt minutes pwd t req.email req.password
                (register_user pwd req env keys tables).tables
              ≡ welcome t user)
          × (profile jwt minutes at
                (token_of jwt minutes t user)
                (register_user pwd req env keys tables).tables
              ≡ profile_shown user)
    unfolding register registered_response welcomed
    registered-signs_in text_of user t at h l k =
        let c : Completes pwd req env keys tables (register_user pwd req env keys tables) user =
          registered-Completes pwd req env keys tables user h in
        let found : known_email req.email (add_user user tables) ≡ some user =
          known_email-first req.email user tables (ap (λ a. a.email) c.account) in
        rw c.left (
          rw
              (authenticate_user-known pwd req.email req.password env.salt (add_user user tables)
                user found c.hashed)
              refl,
          login-known pwd t req.email req.password env.salt (add_user user tables) user found
              c.hashed,
          profile-fresh user t at (add_user user tables) (get_user_by_id-first user tables) l k,
        )
