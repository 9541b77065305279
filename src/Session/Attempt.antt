-- ===== src/Session/Attempt.antt =====
-- The two ways in which `signIn` and `signUp` of AuthContext.tsx end.
use distributed_traffic_serv.Base.{◌≡◌, refl, String, Option, some}
use distributed_traffic_serv.Api.Reply.{ApiError, Reply, ok, failed}
use distributed_traffic_serv.Api.Auth.{AuthResponse, ProfileResponse}
use distributed_traffic_serv.Session.Roles.{UserRole, Region, User}
use distributed_traffic_serv.Session.Provider.{
  Json, Server, Tab, Outcome, returned, threw, after_profile, after_login, sign_in, after_register,
  sign_up,
}

-- It returns with a user of the given kind in memory, or it throws and leaves the user as it was.
pub data Attempt (IsRight : User → Type 0) (before after : Option User) : Outcome → Type 0 where
  entered : (u : User) → IsRight u → after ≡ some u → Attempt IsRight before after returned
  refused : (e : ApiError) → after ≡ before → Attempt IsRight before after (threw e)

abbrev HasEmail : String → User → Type 0
HasEmail email u = u.email ≡ email

after_profile-Attempt :
    (json : Json) (email : String) (res : AuthResponse) (reply : Reply ProfileResponse) (t : Tab)
    → Attempt
        (HasEmail email)
        t.user
        (after_profile json email res reply t).0.user
        (after_profile json email res reply t).1
unfolding after_profile
after_profile-Attempt json email res (ok profile) t = entered _ refl refl
after_profile-Attempt json email res (failed e) t = refused e refl

after_login-Attempt :
    (json : Json) (server : Server) (email : String) (reply : Reply AuthResponse) (t : Tab)
    → Attempt
        (HasEmail email)
        t.user
        (after_login json server email reply t).0.user
        (after_login json server email reply t).1
unfolding after_login
after_login-Attempt json server email (failed e) t = refused e refl
after_login-Attempt json server email (ok res) t = after_profile-Attempt json email res _ _

pub sign_in-Attempt :
    (json : Json) (server : Server) (email password : String) (t : Tab)
    → Attempt
        (λ u. u.email ≡ email)
        t.user
        (sign_in json server email password t).0.user
        (sign_in json server email password t).1
unfolding sign_in
sign_in-Attempt json server email password t = after_login-Attempt json server email _ t

-- A user as registration was told.
pub record IsAsTold (email : String) (role : UserRole) (region : Region) (plate : Option String)
    (u : User) : Type 0 where
  pub same_email : u.email ≡ email
  pub same_role : u.role ≡ role
  pub same_region : u.region ≡ region
  pub same_plate : u.plate_number ≡ plate

after_register-Attempt :
    (json : Json) (email : String) (role : UserRole) (region : Region) (plate : Option String)
    (reply : Reply AuthResponse) (t : Tab)
    → Attempt
        (IsAsTold email role region plate)
        t.user
        (after_register json email role region plate reply t).0.user
        (after_register json email role region plate reply t).1
unfolding after_register
after_register-Attempt json email role region plate (ok res) t =
    entered _
      (record { same_email = refl; same_role = refl; same_region = refl; same_plate = refl }) refl
after_register-Attempt json email role region plate (failed e) t = refused e refl

pub sign_up-Attempt :
    (json : Json) (server : Server) (email password : String) (role : UserRole) (region : Region)
    (plate : Option String) (t : Tab)
    → Attempt
        (IsAsTold email role region plate)
        t.user
        (sign_up json server email password role region plate t).0.user
        (sign_up json server email password role region plate t).1
unfolding sign_up
sign_up-Attempt json server email password role region plate t =
    after_register-Attempt json email role region plate _ t
