-- ===== src/VerificationService/Lookup.antt =====
-- service.py: the check of one plate. `owner` gives the plate that `auth.users` has for a driver, and
-- `now` is the one time of a check.
use distributed_traffic_serv.Base.{
  ℕ, ◌+◌, leb, ltb, String, ◌<>◌, Bool, true, false, ◌&&◌, Option, none, some, List, [], ◌∷◌, ◌==◌,
  string_eq, nullish, truthy, to_upper, if◌then◌else◌,
}
use distributed_traffic_serv.Api.Verification.{Source, cache, database, not_found}
use distributed_traffic_serv.BookingService.Store.{Booking}
use distributed_traffic_serv.BookingService.Reconciler.{is_confirmed_status}
use distributed_traffic_serv.VerificationService.Cache.{
  CachedBooking, Redis, cache_active_booking, get_cached_booking, invalidate_booking,
}

-- `JOURNEY_WINDOW_HOURS`.
abbrev pub journey_window : ℕ
journey_window = 7200000000

-- What a check answers.
pub record Verdict : Type 0 where
  pub plate_number : String
  pub is_authorized : Bool
  pub booking_id : Option String
  pub driver_id : Option String
  pub status : Option String
  pub departure_time : Option ℕ
  pub journey_window_end : Option ℕ
  pub segments : List String
  pub message : String
  pub source : Source
  pub checked_at : ℕ

-- `COALESCE(NULLIF(b.plate_number, ''), u.plate_number, '')`.
unfoldable pub plate_of : (String → Option String) → Booking → String
plate_of owner b =
    if truthy (nullish b.plate_number "")
    then nullish b.plate_number ""
    else nullish (owner b.driver_id) ""

-- The conditions of the query.
unfoldable pub is_active_row : (String → Option String) → ℕ → String → Booking → Bool
unfolding plate_of is_confirmed_status to_upper
is_active_row owner now plate b =
    to_upper (plate_of owner b) == plate
    && is_confirmed_status b.status
    && leb now (b.departure_time + journey_window)
    && leb b.departure_time now

unfoldable pub later : Booking → Option Booking → Booking
later b none = b
later b (some c) = if ltb b.departure_time c.departure_time then c else b

-- `… ORDER BY b.departure_time DESC LIMIT 1`.
unfoldable pub select_row : (String → Option String) → ℕ → String → List Booking → Option Booking
unfolding is_active_row later
select_row owner now plate [] = none
select_row owner now plate (b ∷ rest) =
    let found = select_row owner now plate rest in
    if is_active_row owner now plate b then some (later b found) else found

abbrev pub cached_row : Booking → CachedBooking
cached_row b = record {
  booking_id = b.id;
  driver_id = b.driver_id;
  status = "CONFIRMED";
  departure_time = b.departure_time;
  journey_window_end = b.departure_time + journey_window;
  segments = [];
}

-- The answer on a booking, of the cache and of `_build_authorized_result`.
abbrev pub authorized : String → CachedBooking → Source → String → ℕ → Verdict
authorized plate c source name now = record {
  plate_number = plate;
  is_authorized = true;
  booking_id = some c.booking_id;
  driver_id = some c.driver_id;
  status = some c.status;
  departure_time = some c.departure_time;
  journey_window_end = some c.journey_window_end;
  segments = c.segments;
  message = "Active booking found (" <> (name <> ")");
  source = source;
  checked_at = now;
}

abbrev pub refused : String → ℕ → Verdict
refused plate now = record {
  plate_number = plate;
  is_authorized = false;
  booking_id = none;
  driver_id = none;
  status = none;
  departure_time = none;
  journey_window_end = none;
  segments = [];
  message = "No active booking found for this vehicle";
  source = not_found;
  checked_at = now;
}

-- The calls of Redis and of the database in one check.
pub data Call : Type 0 where
  gets deletes queries sets : Call

-- Whether a call is answered. One that is not raises, and leaves the cache as it was.
abbrev pub Answers : Type 0
Answers = Call → Bool

-- `_lookup_db` behind its query, and the refusal behind it. `none` is an exception, which ends the
-- check.
unfoldable pub answer_row : Answers → ℕ → String → Option Booking → Redis → Option Verdict × Redis
unfolding cache_active_booking
answer_row answers now plate none redis = (some (refused plate now), redis)
answer_row answers now plate (some b) redis =
    if answers sets
    then (
      some (authorized plate (cached_row b) database "database" now),
      cache_active_booking plate (cached_row b) now redis,
    )
    else (none, redis)

unfoldable pub lookup_db :
    Answers → (String → Option String) → ℕ → String → List Booking → Redis → Option Verdict × Redis
unfolding answer_row select_row
lookup_db answers owner now plate bookings redis =
    if answers queries
    then answer_row answers now plate (select_row owner now plate bookings) redis
    else (none, redis)

-- An exception of `invalidate_booking` is passed over by `except Exception: pass`, which leaves
-- `cached` as it is.
unfoldable pub answer_cached :
    Answers
    → (String → Option String)
    → ℕ
    → String
    → List Booking
    → Redis
    → Option CachedBooking
    → Option Verdict × Redis
unfolding lookup_db invalidate_booking
answer_cached answers owner now plate bookings redis none =
    lookup_db answers owner now plate bookings redis
answer_cached answers owner now plate bookings redis (some c) =
    if ltb c.journey_window_end now && answers deletes
    then lookup_db answers owner now plate bookings (invalidate_booking plate redis)
    else (some (authorized plate c cache "cache" now), redis)

-- `verify_plate`.
unfoldable pub verify_plate :
    Answers → (String → Option String) → ℕ → String → List Booking → Redis → Option Verdict × Redis
unfolding answer_cached get_cached_booking
verify_plate answers owner now plate bookings redis =
    if answers gets
    then answer_cached answers owner now plate bookings redis (get_cached_booking plate now redis)
    else (none, redis)
