-- ===== src/AuthService/Register.antt =====
-- service.py: `register_user`. Both VMs set their keys in one Redis, as the docstring of the lock
-- says. What is answered from outside is a part of the call.
use distributed_traffic_serv.Base.{
  ℕ, ◌+◌, String, Bool, not, ◌&&◌, Option, none, some, List, [], ◌∷◌, is_some, if◌then◌else◌,
}
use distributed_traffic_serv.AuthService.Password.{PwdContext, hashed_part}
use distributed_traffic_serv.AuthService.Accounts.{
  Account, Tables, find_email, find_id, Keys, day, email_key, is_claimed, release_key, claim_key,
}

-- RegisterRequest.
pub record RegisterRequest : Type 0 where
  pub email : String
  pub password : String
  pub role : String
  pub plate_number : Option String
  pub region : Option String

-- The payloads on the broker of the replication.
pub data ReplicationEvent : Type 0 where
  user_registered : Account → ReplicationEvent
  user_registration_failed : (user_id email : String) → ReplicationEvent

-- The new id, the salt and the one time of a call; and whether Redis answers to the claim, the
-- database to the query, the broker to the event, the database to the commit and to the refresh,
-- Redis to the release, and the broker to the compensating event.
pub record Surroundings : Type 0 where
  pub user_id : String
  pub salt : String
  pub now : ℕ
  pub claims : Bool
  pub reads : Bool
  pub publishes : Bool
  pub commits : Bool
  pub refreshes : Bool
  pub releases : Bool
  pub compensates : Bool

pub data RegisterError : Type 0 where
  lock_server_down database_down password_refused broker_down commit_failed : RegisterError
  already_registered registered_elsewhere : String → RegisterError

pub data Result : Type 0 where
  registered : Account → Result
  raised : RegisterError → Result

-- What is left of a call.
pub record Registration : Type 0 where
  pub keys : Keys
  pub tables : Tables
  pub events : List ReplicationEvent
  pub result : Result

abbrev pub stopped : Keys → Tables → RegisterError → Registration
stopped keys tables e = record { keys = keys; tables = tables; events = []; result = raised e }

abbrev pub new_account : RegisterRequest → Surroundings → String → Account
new_account req env password_hash = record {
  id = env.user_id;
  email = req.email;
  password_hash = password_hash;
  role = req.role;
  plate_number = req.plate_number;
  region = req.region;
  created_at = env.now;
}

-- The key behind a release, which Redis may not answer to.
abbrev pub released : Surroundings → String → Keys → Keys
released env key keys = if env.releases then release_key key keys else keys

-- The `except` clause behind the `try`. Where Redis does not answer, its exception ends the clause.
unfoldable pub roll_back : Surroundings → Account → Keys → Tables → Registration
unfolding email_key release_key
roll_back env user keys tables = record {
  keys = released env (email_key user.email) keys;
  tables = tables;
  events =
      if env.releases && env.compensates
      then user_registered user ∷ user_registration_failed user.id user.email ∷ []
      else user_registered user ∷ [];
  result = raised (if env.releases then commit_failed else lock_server_down);
}

-- Whether the commit goes through: emails and ids are unique in `auth.users`.
unfoldable pub accepts : Surroundings → Account → Tables → Bool
unfolding find_email find_id
accepts env user tables =
    env.commits
    && not (is_some (find_email user.email tables.users))
    && not (is_some (find_id user.id tables.users))

abbrev pub add_user : Account → Tables → Tables
add_user user tables = record tables { users = user ∷ tables.users }

-- From `db.add(user)` on, with the account's row.
unfoldable pub commit_user : Surroundings → Account → Keys → Tables → Registration
unfolding roll_back accepts
commit_user env user keys tables =
    if not env.publishes
    then stopped keys tables broker_down
    else if not (accepts env user tables)
    then roll_back env user keys tables
    else if not env.refreshes
    then roll_back env user keys (add_user user tables)
    else record {
      keys = keys;
      tables = add_user user tables;
      events = user_registered user ∷ [];
      result = registered user;
    }

unfoldable pub hash_and_commit :
    RegisterRequest → Surroundings → Option String → Keys → Tables → Registration
unfolding commit_user
hash_and_commit req env none keys tables = stopped keys tables password_refused
hash_and_commit req env (some password_hash) keys tables =
    commit_user env (new_account req env password_hash) keys tables

-- Behind the claim.
unfoldable pub register_claimed :
    PwdContext → RegisterRequest → Surroundings → Keys → Tables → Registration
unfolding find_email release_key email_key hash_and_commit hashed_part
register_claimed pwd req env keys tables =
    if not env.reads
    then stopped keys tables database_down
    else if is_some (find_email req.email tables.replicas)
    then stopped (released env (email_key req.email) keys) tables
        (if env.releases then registered_elsewhere req.email else lock_server_down)
    else hash_and_commit req env (pwd.hash env.salt (hashed_part req.password)) keys tables

-- `register_user`.
unfoldable pub register_user :
    PwdContext → RegisterRequest → Surroundings → Keys → Tables → Registration
unfolding is_claimed claim_key email_key register_claimed
register_user pwd req env keys tables =
    if not env.claims
    then stopped keys tables lock_server_down
    else if is_claimed (email_key req.email) env.now keys
    then stopped keys tables (already_registered req.email)
    else register_claimed pwd req env (claim_key (email_key req.email) (env.now + day) keys) tables
