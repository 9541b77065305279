-- ===== src/VerificationService/Calls.antt =====
-- What the calls of the service answer.
use mathlib.Core.List.{Memᴰ}
use distributed_traffic_serv.Base.{
  ℕ, suc, ◌≤◌, ◌<◌, ◌≡◌, ◌≢◌, refl, String, ◌||◌, Option, none, some, List, [], ◌∷◌, map, ◌==◌,
  string_eq, eq_iff, eq_refl, length, count, lookup-without, Bool-cases, ◌⊎◌, inl, inr, arith,
}
use distributed_traffic_serv.Access.{Outcome, success, refusal, Claims, require_enforcement}
use distributed_traffic_serv.BookingService.Store.{Booking}
use distributed_traffic_serv.VerificationService.Cache.{
  Redis, cache_key, alive, get_cached_booking, invalidate_booking,
}
use distributed_traffic_serv.VerificationService.Lookup.{Verdict, Answers}
use distributed_traffic_serv.VerificationService.Consumer.{normalised}
use distributed_traffic_serv.VerificationService.Checks.{Checked}
use distributed_traffic_serv.VerificationService.Routes.{
  BatchVerificationResponse, invalidate_cache,
}

-- The roles that may check plates.
abbrev pub MayCheck : Claims → Type 0
MayCheck user = (user.role ≡ "enforcement_agent") ⊎ (user.role ≡ "admin")

abbrev pub forbidden {ℓ} : {A : Type ℓ} → Outcome A
forbidden = refusal 403 "Only enforcement agents and admins can verify plate numbers."

pub require_enforcement-cases :
    (user : Claims)
    → (MayCheck user × (require_enforcement user ≡ success user))
      ⊎ ((¬ MayCheck user) × (require_enforcement user ≡ forbidden))
unfolding require_enforcement
require_enforcement-cases user =
    elim (Bool-cases (user.role == "enforcement_agent" || user.role == "admin")) [
      | inl e ↦ inl (
        elim (Bool-cases (user.role == "enforcement_agent")) [
          | inl agent ↦ inl ((eq_iff user.role "enforcement_agent").0 agent)
          | inr other ↦ inr ((eq_iff user.role "admin").0 (ground (arith, e, other)))
        ],
        rw e refl,
      )
      | inr e ↦ inr (
        λ m. elim m [
          | inl agent ↦
              let t = (eq_iff user.role "enforcement_agent").1 agent in
              absurd (ground (arith, e, t))
          | inr chief ↦ let t = (eq_iff user.role "admin").1 chief in absurd (ground (arith, e, t))
        ],
        rw e refl,
      )
    ]

module _ (answers : ℕ → Answers) (owner : String → Option String) (now : ℕ)
    (bookings : List Booking) where
  -- Plates that are checked one behind the other, each on the cache that the one in front left. The
  -- first number is that of the task.
  pub data AllChecked : ℕ → Redis → List String → List (Option Verdict) → Redis → Type 0 where
    nothing : {n : ℕ} {redis : Redis} → AllChecked n redis [] [] redis
    checked :
        {n : ℕ} {redis redis'' : Redis} {plates : List String} {outcomes : List (Option Verdict)}
        (plate : String) (outcome : Option Verdict) (redis' : Redis)
        → Checked (answers n) owner now plate bookings redis (outcome, redis')
        → AllChecked (suc n) redis' plates outcomes redis''
        → AllChecked n redis (plate ∷ plates) (outcome ∷ outcomes) redis''

  -- The answers to a batch: to a caller without the role; to none or more than fifty plates, in front
  -- of the handler's own test; one verdict for each plate, with their number and that of those
  -- authorised; and to a batch with a plate whose check failed.
  pub data BatchAnswers (user : Claims) (plates : List String) (redis : Redis)
      : Outcome BatchVerificationResponse × Redis → Type 0 where
    no_role : ¬ MayCheck user → BatchAnswers user plates redis (forbidden, redis)
    bad_size :
        MayCheck user
        → (length plates ≡ 0) ⊎ (50 < length plates)
        → BatchAnswers user plates redis (refusal 422 "plate_numbers", redis)
    answered :
        (verdicts : List Verdict) (redis' : Redis)
        → MayCheck user
        → 1 ≤ length plates
        → length plates ≤ 50
        → AllChecked 0 redis (map normalised plates) (map some verdicts) redis'
        → BatchAnswers user plates redis (
          success (record {
            results = verdicts;
            total = length plates;
            authorized_count = count (λ r. r.is_authorized) verdicts;
          }),
          redis',
        )
    broken :
        (outcomes : List (Option Verdict)) (redis' : Redis)
        → MayCheck user
        → 1 ≤ length plates
        → length plates ≤ 50
        → AllChecked 0 redis (map normalised plates) outcomes redis'
        → Memᴰ none outcomes
        → BatchAnswers user plates redis (refusal 500 "Internal Server Error", redis')

-- An admin's invalidation of a plate takes it out of the cache, and leaves every plate of another key
-- as it was.
pub invalidate_cache-forgets :
    (user : Claims) (plate other : String) (now : ℕ) (redis : Redis)
    → user.role ≡ "admin"
    → cache_key other ≢ cache_key (normalised plate)
    → ((invalidate_cache user plate redis).0 ≡ success (normalised plate))
      × (get_cached_booking (normalised plate) now (invalidate_cache user plate redis).1 ≡ none)
      × (get_cached_booking other now (invalidate_cache user plate redis).1
          ≡ get_cached_booking other now redis)
unfolding invalidate_cache invalidate_booking get_cached_booking alive
invalidate_cache-forgets user plate other now redis admin apart =
    let e = (eq_iff user.role "admin").1 admin in
    let key : String = cache_key (normalised plate) in
    rw e (
      refl,
      rw (lookup-without key key redis) (rw (eq_refl key) refl),
      rw (lookup-without (cache_key other) key redis)
          (ground (arith, eq_iff key (cache_key other), apart)),
    )
