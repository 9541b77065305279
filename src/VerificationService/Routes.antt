-- ===== src/VerificationService/Routes.antt =====
-- routes.py, and the parts of service.py and cache.py that only it calls. The tasks of
-- `asyncio.gather` run one behind the other, each to its end, also behind one that raised; other
-- orders of their steps are left out. They share one session of the database: that a query raises
-- where another is under way is in the `Answers` of its task.
use mathlib.Core.Option
use distributed_traffic_serv.Base.{
  ℕ, ltb, leb, suc, String, not, ◌&&◌, Option, none, some, List, [], ◌∷◌, map, ◌==◌, string_eq,
  length, count, if◌then◌else◌,
}
use distributed_traffic_serv.Access.{Outcome, success, refusal, Claims, require_enforcement}
use distributed_traffic_serv.BookingService.Store.{Booking}
use distributed_traffic_serv.VerificationService.Cache.{Redis, invalidate_booking}
use distributed_traffic_serv.VerificationService.Lookup.{Verdict, Answers, verify_plate}
use distributed_traffic_serv.VerificationService.Consumer.{normalised}

-- A handler behind a dependency that raises or not.
unfoldable pub behind {ℓ} :
    {A : Type ℓ} → Outcome Claims → Redis → Outcome A × Redis → Outcome A × Redis
behind (success user) redis handled = handled
behind (refusal status detail) redis handled = (refusal status detail, redis)

-- BatchVerificationResponse, with what `model_post_init` counts.
pub record BatchVerificationResponse : Type 0 where
  pub results : List Verdict
  pub total : ℕ
  pub authorized_count : ℕ

unfoldable pub batch_response : List Verdict → BatchVerificationResponse
unfolding count
batch_response results = record {
  results = results;
  total = length results;
  authorized_count = count (λ r. r.is_authorized) results;
}

-- CacheStatsResponse.
pub record CacheStatsResponse : Type 0 where
  pub active_booking_keys : ℕ
  pub total_redis_keys : ℕ
  pub checked_at : ℕ

-- What `asyncio.gather` gives: the first exception, if there is one.
unfoldable pub gathered {ℓ} : {A : Type ℓ} → List (Option A) → Option (List A)
gathered [] = some []
gathered (none ∷ rest) = none
gathered (some a ∷ rest) = Option.map (λ values. a ∷ values) (gathered rest)

-- FastAPI's answer to an exception.
abbrev pub or_500 {ℓ} : {A : Type ℓ} → Option A → Outcome A
or_500 none = refusal 500 "Internal Server Error"
or_500 (some a) = success a

module _ (owner : String → Option String) (now : ℕ) (bookings : List Booking) where
  -- The tasks of `verify_plates_batch`; the first number is that of the task.
  unfoldable pub run_tasks : (ℕ → Answers) → ℕ → List String → Redis → List (Option Verdict) × Redis
  unfolding verify_plate
  run_tasks answers n [] redis = ([], redis)
  run_tasks answers n (plate ∷ plates) redis =
      let first = verify_plate (answers n) owner now plate bookings redis in
      let rest = run_tasks answers (suc n) plates first.1 in (first.0 ∷ rest.0, rest.1)

  -- `verify_plates_batch` of service.py.
  unfoldable pub verify_plates_batch :
      (ℕ → Answers) → List String → Redis → Option (List Verdict) × Redis
  unfolding run_tasks gathered
  verify_plates_batch answers plates redis =
      let ran = run_tasks answers 0 plates redis in (gathered ran.0, ran.1)

  -- `GET /{plate_number}`.
  unfoldable pub verify_route : Answers → Claims → String → Redis → Outcome Verdict × Redis
  unfolding verify_plate require_enforcement behind
  verify_route answers user plate redis =
      let answered = verify_plate answers owner now (normalised plate) bookings redis in
      behind (require_enforcement user) redis (or_500 answered.0, answered.1)

  -- The handler of `POST /batch`, behind the role.
  unfoldable pub batch_checked :
      (ℕ → Answers) → List String → Redis → Outcome BatchVerificationResponse × Redis
  unfolding verify_plates_batch batch_response
  batch_checked answers plates redis =
      let answered = verify_plates_batch answers (map normalised plates) redis in
      if not (leb 1 (length plates) && leb (length plates) 50)
      then (refusal 422 "plate_numbers", redis)
      else if ltb 50 (length plates)
      then (refusal 400 "Maximum 50 plates per batch request.", redis)
      else (or_500 (Option.map batch_response answered.0), answered.1)

  -- `POST /batch`: FastAPI runs the dependency, then checks the size of BatchVerificationRequest.
  unfoldable pub batch_route :
      (ℕ → Answers) → Claims → List String → Redis → Outcome BatchVerificationResponse × Redis
  unfolding require_enforcement behind batch_checked
  batch_route answers user plates redis =
      behind (require_enforcement user) redis (batch_checked answers plates redis)

-- `GET /_cache/stats`; every key of the cache has its prefix, and `dbsize` is Redis's.
unfoldable pub cache_stats : Claims → (now dbsize : ℕ) → Redis → Outcome CacheStatsResponse
unfolding count
cache_stats user now dbsize redis =
    if not (user.role == "admin")
    then refusal 403 "Admin only."
    else success (record {
      active_booking_keys = count (λ k. ltb now k.1.expires_at) redis;
      total_redis_keys = dbsize;
      checked_at = now;
    })

-- `DELETE /_cache/{plate_number}`.
unfoldable pub invalidate_cache : Claims → String → Redis → Outcome String × Redis
unfolding invalidate_booking
invalidate_cache user plate redis =
    if not (user.role == "admin")
    then (refusal 403 "Admin only.", redis)
    else (success (normalised plate), invalidate_booking (normalised plate) redis)
