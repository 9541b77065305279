-- ===== src/Notifications/Visiting.antt =====
-- What a visit of Notifications.tsx can ask for, and that it does not load for nothing.
use distributed_traffic_serv.Base.{
  ℕ, zero, suc, ◌<◌, ◌≡◌, refl, String, true, false, some, List, [], ◌∷◌, ◌++◌, truthy, ◌==◌,
  string_eq, nat_eq, Bool-cases, inl, inr, All, length, arith,
}
use distributed_traffic_serv.Api.Reply.{Reply, ok, failed}
use distributed_traffic_serv.Api.Notifications.{NotificationOut}
use distributed_traffic_serv.Session.Roles.{User, role_eq}
use distributed_traffic_serv.Notifications.State.{
  Asked, Notices, open_notices, load_notices, set_target, set_limit, notices_settled, remove_at,
  initial_notices,
}
use distributed_traffic_serv.Notifications.View.{id_disabled}

-- The states that a visit of the given user can reach. The input takes a text only where it is
-- enabled; an answer may come to any request that is under way, in any order.
pub data Visit (user : User) : Notices → Type 0 where
  opened : Visit user (open_notices (some user))
  typed :
      {s : Notices} (id : String)
      → id_disabled (some user) ≡ false
      → Visit user s
      → Visit user (set_target id s)
  limited : {s : Notices} (limit : ℕ) → Visit user s → Visit user (set_limit limit s)
  refreshed : {s : Notices} → Visit user s → Visit user (load_notices s)
  answered :
      {s : Notices} (k : ℕ) (reply : Reply (List NotificationOut))
      → k < length s.in_flight
      → Visit user s
      → Visit user (notices_settled k reply s)

-- All that the page asks for is of one user.
abbrev OnlyOf : String → Notices → Type 0
OnlyOf id s = (s.target_user_id ≡ id) × All (λ r. r.user_id ≡ id) s.in_flight

All-append :
    (id : String) (xs : List Asked) (r : Asked)
    → r.user_id ≡ id
    → All (λ r. r.user_id ≡ id) xs
    → All (λ r. r.user_id ≡ id) (xs ++ (r ∷ []))
All-append id [] r e h = (e, tt)
All-append id (x ∷ xs) r e (p, h) = (p, All-append id xs r e h)

All-remove_at :
    (id : String) (k : ℕ) (xs : List Asked)
    → All (λ r. r.user_id ≡ id) xs
    → All (λ r. r.user_id ≡ id) (remove_at k xs)
All-remove_at id k [] h = tt
All-remove_at id zero (x ∷ xs) (p, h) = h
All-remove_at id (suc k) (x ∷ xs) (p, h) = (p, All-remove_at id k xs h)

load_notices-OnlyOf : (id : String) (s : Notices) → OnlyOf id s → OnlyOf id (load_notices s)
unfolding load_notices
load_notices-OnlyOf id s (e, h) = elim (Bool-cases (truthy s.target_user_id)) [
  | inl t ↦ rw t (e, All-append id s.in_flight _ e h)
  | inr t ↦ rw t (e, h)
]

set_limit-OnlyOf :
    (id : String) (limit : ℕ) (s : Notices) → OnlyOf id s → OnlyOf id (set_limit limit s)
unfolding set_limit
set_limit-OnlyOf id limit s h = elim (Bool-cases (limit == s.limit)) [
  | inl t ↦ rw t h
  | inr t ↦ rw t (load_notices-OnlyOf id (record s { limit = limit }) h)
]

notices_settled-OnlyOf :
    (id : String) (k : ℕ) (reply : Reply (List NotificationOut)) (s : Notices)
    → OnlyOf id s
    → OnlyOf id (notices_settled k reply s)
unfolding notices_settled
notices_settled-OnlyOf id k (ok items) s (e, h) = (e, All-remove_at id k s.in_flight h)
notices_settled-OnlyOf id k (failed error) s (e, h) = (e, All-remove_at id k s.in_flight h)

-- Whatever a user who is no admin does on the page, it stands at their own id, and every request
-- under way is for their own notifications.
pub Visit-own :
    (user : User) → id_disabled (some user) ≡ true → {s : Notices} → Visit user s → OnlyOf user.id s
unfolding open_notices initial_notices
Visit-own user disabled opened =
    load_notices-OnlyOf user.id (initial_notices (some user)) (refl, tt)
Visit-own user disabled (typed id enabled v) = absurd (ground arith)
Visit-own user disabled (limited limit v) =
    set_limit-OnlyOf user.id limit _ (Visit-own user disabled v)
Visit-own user disabled (refreshed v) = load_notices-OnlyOf user.id _ (Visit-own user disabled v)
Visit-own user disabled (answered k reply lt v) =
    notices_settled-OnlyOf user.id k reply _ (Visit-own user disabled v)

abbrev Waits : Notices → Type 0
Waits s = s.loading ≡ true → 0 < length s.in_flight

length-append : (xs : List Asked) (r : Asked) → 0 < length (xs ++ (r ∷ []))
length-append [] r = omega arith
length-append (x ∷ xs) r = omega arith

load_notices-Waits : (s : Notices) → Waits s → Waits (load_notices s)
unfolding load_notices
load_notices-Waits s h = elim (Bool-cases (truthy s.target_user_id)) [
  | inl t ↦ rw t (λ _. length-append s.in_flight _)
  | inr t ↦ rw t h
]

set_target-Waits : (id : String) (s : Notices) → Waits s → Waits (set_target id s)
unfolding set_target
set_target-Waits id s h = elim (Bool-cases (id == s.target_user_id)) [
  | inl t ↦ rw t h
  | inr t ↦ rw t (load_notices-Waits (record s { target_user_id = id }) h)
]

set_limit-Waits : (limit : ℕ) (s : Notices) → Waits s → Waits (set_limit limit s)
unfolding set_limit
set_limit-Waits limit s h = elim (Bool-cases (limit == s.limit)) [
  | inl t ↦ rw t h
  | inr t ↦ rw t (load_notices-Waits (record s { limit = limit }) h)
]

notices_settled-Waits :
    (k : ℕ) (reply : Reply (List NotificationOut)) (s : Notices) → Waits (notices_settled k reply s)
unfolding notices_settled
notices_settled-Waits k (ok items) s loading = absurd (ground arith)
notices_settled-Waits k (failed e) s loading = absurd (ground arith)

-- The page of a user with an id says that it is loading only while a request is under way.
pub Visit-waits :
    (user : User)
    → truthy user.id ≡ true
    → {s : Notices} → Visit user s
    → s.loading ≡ true
    → 0 < length s.in_flight
unfolding open_notices load_notices initial_notices
Visit-waits user named opened = rw named (λ _. omega arith)
Visit-waits user named (typed id enabled v) = set_target-Waits id _ (Visit-waits user named v)
Visit-waits user named (limited limit v) = set_limit-Waits limit _ (Visit-waits user named v)
Visit-waits user named (refreshed {s = s} v) = load_notices-Waits s (Visit-waits user named v)
Visit-waits user named (answered {s = s} k reply lt v) = notices_settled-Waits k reply s
