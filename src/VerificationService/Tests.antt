-- ===== src/VerificationService/Tests.antt =====
-- A journey from ten o'clock, confirmed at nine.
use distributed_traffic_serv.Base.{
  arith, ℕ, ◌≡◌, ◌≢◌, refl, String, Bool, true, false, ◌&&◌, Option, none, some, [], ◌∷◌, ◌==◌,
  string_eq, nat_eq, eq_iff, to_upper, trim,
}
use distributed_traffic_serv.Api.Verification.{cache}
use distributed_traffic_serv.Api.Bookings.{confirmed}
use distributed_traffic_serv.BookingService.Store.{Booking}
use distributed_traffic_serv.BookingService.Saga.{Event}
use distributed_traffic_serv.VerificationService.Cache.{
  Redis, cache_key, cache_active_booking, get_cached_booking,
}
use distributed_traffic_serv.Access.{Outcome, success, Claims}
use distributed_traffic_serv.VerificationService.Routes.{
  BatchVerificationResponse, batch_route, invalidate_cache,
}
use distributed_traffic_serv.VerificationService.Calls.{invalidate_cache-forgets}
use distributed_traffic_serv.VerificationService.Lookup.{
  deletes, Answers, authorized, refused, verify_plate,
}
use distributed_traffic_serv.VerificationService.Consumer.{
  normalised, cached_event, process_message,
}
use distributed_traffic_serv.VerificationService.Checks.{Checked, verify_plate-Checked}
use distributed_traffic_serv.VerificationService.Warming.{process_message-authorises}

abbrev nine : ℕ
nine = 32400000000

abbrev ten : ℕ
ten = 36000000000

abbrev owner : String → Option String
owner driver = none

abbrev booking : Booking
booking = record {
  id = "b1";
  driver_id = "ann";
  plate_number = some "ab12";
  departure_time = nine;
  status = confirmed;
  estimated_duration_minutes = some 90;
  created_at = 5;
}

abbrev all_up : Answers
all_up call = true

verify_plate-Checked_example :
    Checked all_up owner ten "AB12"
      (booking ∷ [])
      []
      (verify_plate all_up owner ten "AB12" (booking ∷ []) [])
verify_plate-Checked_example = verify_plate-Checked all_up owner ten "AB12" (booking ∷ []) []

abbrev event : Event
event = record {
  routing_key = "booking.confirmed";
  booking_id = "b1";
  driver_id = "ann";
  plate_number = some "ab12 ";
  regions = "EU_WEST_UK" ∷ [];
  departure_time = some ten;
}

abbrev warmed : Redis
warmed = cache_active_booking "AB12" (cached_event event nine) nine []

plate_shown : (normalised "ab12 " == "") ≡ false
unfolding to_upper trim
plate_shown = refl

handled : process_message event nine [] ≡ some warmed
unfolding process_message
handled = refl

-- At nine, an hour before the journey begins.
process_message-authorises_example :
    verify_plate all_up owner nine (normalised "ab12 ") [] warmed
    ≡ (some (authorized (normalised "ab12 ") (cached_event event nine) cache "cache" nine), warmed)
process_message-authorises_example =
    process_message-authorises all_up owner event "ab12 " ten nine nine [] [] warmed refl refl
      plate_shown refl handled (omega arith) (omega arith) refl

-- The database alone refuses it then.
refused_before :
    (verify_plate all_up owner nine "AB12" (record booking { departure_time = ten } ∷ []) []).0
    ≡ some (refused "AB12" nine)
unfolding verify_plate
refused_before = refl

abbrev no_delete : Answers
no_delete deletes = false
no_delete _ = true

-- An entry whose window is over, which cannot be deleted, still authorises.
over_but_authorised : verify_plate no_delete owner 43300000000 (normalised "ab12 ") [] warmed ≡ (
  some (authorized (normalised "ab12 ") (cached_event event nine) cache "cache" 43300000000),
  warmed,
)
unfolding verify_plate trim
over_but_authorised = refl

abbrev agent : Claims
agent = record { sub = "e1"; role = "enforcement_agent"; email = "e@x.ie"; iat = 0; exp = 60 }

abbrev one_of_two : Outcome BatchVerificationResponse → Bool
one_of_two (success r) = r.total == 2 && r.authorized_count == 1
one_of_two _ = false

-- One of the two plates has a journey.
batch_counts :
    one_of_two (batch_route owner ten (booking ∷ []) (λ n. all_up) agent ("ab12" ∷ "zz9" ∷ []) []).0
    ≡ true
unfolding batch_route to_upper trim
batch_counts = refl

abbrev chief : Claims
chief = record agent { role = "admin" }

other_key : cache_key "ZZ9" ≢ cache_key (normalised "ab12")
unfolding to_upper trim
other_key e = let same = (eq_iff (cache_key "ZZ9") (cache_key (normalised "ab12"))).1 e in cc

invalidate_cache-forgets_test :
    ((invalidate_cache chief "ab12" warmed).0 ≡ success (normalised "ab12"))
    × (get_cached_booking (normalised "ab12") ten (invalidate_cache chief "ab12" warmed).1 ≡ none)
    × (get_cached_booking "ZZ9" ten (invalidate_cache chief "ab12" warmed).1
        ≡ get_cached_booking "ZZ9" ten warmed)
invalidate_cache-forgets_test =
    invalidate_cache-forgets chief "ab12" "ZZ9" ten warmed refl other_key
