-- ===== src/AuthService/Tests.antt =====
-- Ann and Ben register, with a hash that keeps the password and tokens that are their payloads.
use mathlib.Core.List.{Memᴰ}
use distributed_traffic_serv.Base.{
  arith, ℕ, ◌+◌, ◌*◌, ◌≤◌, ◌<◌, ◌≡◌, ◌⊎◌, refl, ltb, leb, String, true, false, Option, none, some,
  [], ◌==◌, string_eq, eq_iff, to_lower, if◌then◌else◌,
}
use distributed_traffic_serv.Access.{Claims, Decoded, valid, expired, invalid, microseconds, Jwt}
use distributed_traffic_serv.AuthService.Password.{PwdContext, hashed_part}
use distributed_traffic_serv.AuthService.Accounts.{Account, Tables, find_email, find_id, day}
use distributed_traffic_serv.AuthService.Register.{
  RegisterRequest, Surroundings, RegisterError, broker_down, commit_failed, already_registered,
  registered, raised, stopped, new_account, register_user,
}
use distributed_traffic_serv.AuthService.Login.{token_of, login, register, profile}
use distributed_traffic_serv.AuthService.Replication.{handle_all}
use distributed_traffic_serv.AuthService.Cut.{IsCut, hashed_part-IsCut}
use distributed_traffic_serv.AuthService.Registering.{Ends, register_user-Ends}
use distributed_traffic_serv.AuthService.SigningIn.{welcome, profile_shown, registered-signs_in}
use distributed_traffic_serv.AuthService.Mirroring.{
  raised-LeavesNoTrace, IsUnknown, registered-signs_in_at_peer,
}
use distributed_traffic_serv.AuthService.Cluster.{Cluster, Step, Reach}
use distributed_traffic_serv.AuthService.Apart.{emails_a_day_apart}
use distributed_traffic_serv.AuthService.Lasting.{account_lasts}
use distributed_traffic_serv.AuthService.Blocked.{broker_down-blocks}

hash-verifies :
    (salt password password_hash : String)
    → ◌≡◌ {A = Option String} (some password) (some password_hash)
    → (password == password_hash) ≡ true
hash-verifies salt password password_hash h =
    let same : password ≡ password_hash = cc in (eq_iff password password_hash).1 same

abbrev pwd : PwdContext
pwd = record {
  hash = λ salt password. some password;
  verify = λ password password_hash. password == password_hash;
  verify-hash = hash-verifies;
}

abbrev read_at : ℕ → Claims → Decoded
read_at now c =
    if ltb now (c.exp * microseconds)
    then if leb (c.iat * microseconds) now then valid c else invalid
    else expired

read_at-fresh :
    (c : Claims) (now : ℕ)
    → c.iat * microseconds ≤ now
    → now < c.exp * microseconds
    → read_at now c ≡ valid c
read_at-fresh c now h k = ground arith

read_at_late : (c : Claims) (now : ℕ) → c.exp * microseconds ≤ now → read_at now c ≡ expired
read_at_late c now h = ground arith

abbrev jwt : Jwt
jwt = record {
  Token = Claims;
  encode = λ c. c;
  decode = read_at;
  decode-encode = read_at-fresh;
  decode_late = read_at_late;
}

-- A password of 71 letters and one of two bytes is cut in front of it.
cut_inside :
    hashed_part "aaaaaaaaaaaaaaaaaaaaaaaaaaaaaaaaaaaaaaaaaaaaaaaaaaaaaaaaaaaaaaaaaaaaaaaé"
    ≡ "aaaaaaaaaaaaaaaaaaaaaaaaaaaaaaaaaaaaaaaaaaaaaaaaaaaaaaaaaaaaaaaaaaaaaaa"
unfolding hashed_part
cut_inside = refl

hashed_part-IsCut_test : IsCut 72 "sécret" (hashed_part "sécret")
hashed_part-IsCut_test = hashed_part-IsCut "sécret"

abbrev req : RegisterRequest
req = record {
  email = "Ann@x.ie";
  password = "secret";
  role = "driver";
  plate_number = some "AB12";
  region = none;
}

abbrev env : Surroundings
env = record {
  user_id = "u1";
  salt = "s";
  now = 1000000;
  claims = true;
  reads = true;
  publishes = true;
  commits = true;
  refreshes = true;
  releases = true;
  compensates = true;
}

abbrev empty : Tables
empty = record { users = []; replicas = [] }

abbrev ann : Account
ann = new_account req env "secret"

registers : (register_user pwd req env [] empty).result ≡ registered ann
unfolding register_user
registers = refl

register_user-Ends_test : Ends pwd req env [] empty (register_user pwd req env [] empty)
register_user-Ends_test = register_user-Ends pwd req env [] empty

abbrev no_text : RegisterError → String
no_text e = ""

registered-signs_in_example :
    ((register jwt 60 no_text pwd 2000000 req env [] empty).1 ≡ welcome jwt 60 2000000 ann)
    × (login jwt 60 pwd 2000000 "Ann@x.ie" "secret" (register_user pwd req env [] empty).tables
        ≡ welcome jwt 60 2000000 ann)
    × (profile jwt 60 3000000
          (token_of jwt 60 2000000 ann)
          (register_user pwd req env [] empty).tables
        ≡ profile_shown ann)
registered-signs_in_example =
    registered-signs_in jwt 60 pwd req env [] empty no_text ann 2000000 3000000 registers
      (omega arith) (omega arith)

unknown : IsUnknown "Ann@x.ie" "u1" empty
unfolding find_email find_id
unknown = record { no_user = refl; no_user_id = refl; no_replica = refl; no_replica_id = refl }

registered-signs_in_at_peer_example :
    (login jwt 60 pwd 2000000 "Ann@x.ie" "secret"
        (handle_all (register_user pwd req env [] empty).events empty)
      ≡ welcome jwt 60 2000000 ann)
    × (profile jwt 60 3000000
          (token_of jwt 60 2000000 ann)
          (handle_all (register_user pwd req env [] empty).events empty)
        ≡ profile_shown ann)
registered-signs_in_at_peer_example =
    registered-signs_in_at_peer jwt 60 pwd req env [] empty empty ann 2000000 3000000 registers
      unknown (omega arith) (omega arith)

abbrev refused : Surroundings
refused = record env { commits = false }

fails : (register_user pwd req refused [] empty).result ≡ raised commit_failed
unfolding register_user
fails = refl

raised-LeavesNoTrace_example :
    handle_all (register_user pwd req refused [] empty).events empty ≡ empty
unfolding find_id
raised-LeavesNoTrace_example =
    raised-LeavesNoTrace pwd req refused [] empty empty commit_failed fails refl refl refl

abbrev unheard : Surroundings
unheard = record env { publishes = false }

unpublished : (register_user pwd req unheard [] empty).result ≡ raised broker_down
unfolding register_user
unpublished = refl

-- An hour later, at the other node.
abbrev again : RegisterRequest
again = record req { email = "ann@X.ie" }

abbrev an_hour_later : Surroundings
an_hour_later = record env { now = 3601000000 }

same_email : to_lower "ann@X.ie" ≡ to_lower "Ann@x.ie"
unfolding to_lower
same_email = refl

broker_down-blocks_example :
    ((register_user pwd req unheard [] empty).tables ≡ empty)
    × (register_user pwd again an_hour_later (register_user pwd req unheard [] empty).keys empty
        ≡ stopped
            (register_user pwd req unheard [] empty).keys
            empty
            (already_registered "ann@X.ie"))
broker_down-blocks_example =
    broker_down-blocks pwd pwd req again unheard an_hour_later [] empty empty unpublished same_email
      refl (omega arith)

-- Two days later the email is registered at the other node as well.
abbrev two_days_later : Surroundings
two_days_later = record env { user_id = "u2"; now = 172801000000 }

abbrev start : Cluster
start = record { keys = []; east = empty; west = empty; clock = 0 }

abbrev first : Cluster
first = record start {
  keys = (register_user pwd req env [] empty).keys;
  east = (register_user pwd req env [] empty).tables;
  clock = 1000000;
}

abbrev second : Cluster
second = record first {
  keys = (register_user pwd again two_days_later first.keys empty).keys;
  west = (register_user pwd again two_days_later first.keys empty).tables;
  clock = 172801000000;
}

abbrev ann_again : Account
ann_again = new_account again two_days_later "secret"

both : Reach start second
both =
    Reach.next (Reach.next Reach.here (Step.register_east pwd req env (omega arith) refl))
      (Step.register_west pwd again two_days_later (omega arith) refl)

in_east : Memᴰ ann second.east.users
unfolding register_user
in_east = Memᴰ.head refl

in_west : Memᴰ ann_again second.west.users
unfolding register_user
in_west = Memᴰ.head refl

emails_a_day_apart_example :
    (ann.created_at + day ≤ ann_again.created_at) ⊎ (ann_again.created_at + day ≤ ann.created_at)
emails_a_day_apart_example =
    emails_a_day_apart ann ann_again refl refl both in_east in_west same_email_back
  where
    same_email_back : to_lower "Ann@x.ie" ≡ to_lower "ann@X.ie"
    same_email_back = unfold to_lower in refl

account_lasts_example : login jwt 60 pwd 5 "Ann@x.ie" "secret" second.east ≡ welcome jwt 60 5 ann
account_lasts_example =
    account_lasts jwt 60 pwd req env [] empty ann first second 5 registers refl
      (Reach.next Reach.here (Step.register_west pwd again two_days_later (omega arith) refl))
