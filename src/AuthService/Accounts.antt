-- ===== src/AuthService/Accounts.antt =====
-- models.py: the tables of one node, and the keys of Redis that claim an email. `replicated_at`, which
-- nothing reads, is left out. Letters are those of ASCII in lower-casing.
use distributed_traffic_serv.Base.{
  ℕ, ltb, String, ◌<>◌, Bool, false, not, Option, none, some, List, [], ◌∷◌, ◌==◌, string_eq,
  filter, lookup, to_lower, if◌then◌else◌,
}

-- A row of `users`, of the schema `auth` or `auth_replica`.
pub record Account : Type 0 where
  pub id : String
  pub email : String
  pub password_hash : String
  pub role : String
  pub plate_number : Option String
  pub region : Option String
  pub created_at : ℕ

-- `User` and `ReplicatedUser` of one node.
pub record Tables : Type 0 where
  pub users : List Account
  pub replicas : List Account

-- `select(…).where(….email == email)` and `scalar_one_or_none`, of a table where emails are unique.
unfoldable pub find_email : String → List Account → Option Account
find_email email [] = none
find_email email (a ∷ rest) = if a.email == email then some a else find_email email rest

-- `select(…).where(….id == id)` and `scalar_one_or_none`.
unfoldable pub find_id : String → List Account → Option Account
find_id id [] = none
find_id id (a ∷ rest) = if a.id == id then some a else find_id id rest

-- The keys of Redis, each with the time at which it expires.
abbrev pub Keys : Type 0
Keys = List (String × ℕ)

-- `EMAIL_LOCK_TTL`.
abbrev pub day : ℕ
day = 86400000000

-- `email_key`.
unfoldable pub email_key : String → String
unfolding to_lower
email_key email = "email:registered:" <> to_lower email

unfoldable pub is_alive : ℕ → Option ℕ → Bool
is_alive now none = false
is_alive now (some expires_at) = ltb now expires_at

-- Whether `redis.set(key, …, nx=True)` finds the key set.
unfoldable pub is_claimed : String → ℕ → Keys → Bool
unfolding is_alive lookup
is_claimed key now keys = is_alive now (lookup key keys)

-- `redis.delete(key)`.
unfoldable pub release_key : String → Keys → Keys
unfolding filter
release_key key keys = filter (λ k. not (k.0 == key)) keys

-- `redis.set(key, "1", nx=True, ex=EMAIL_LOCK_TTL)` where the key is not set.
unfoldable pub claim_key : String → ℕ → Keys → Keys
unfolding release_key
claim_key key expires_at keys = (key, expires_at) ∷ release_key key keys
