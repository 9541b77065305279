-- ===== src/VerificationService/Consumer.antt =====
-- consumer.py: what the events of the bookings do to the cache.
use distributed_traffic_serv.Base.{
  ℕ, ◌+◌, String, ◌||◌, Option, none, some, ◌==◌, string_eq, nullish, to_upper, trim, if◌then◌else◌,
}
use distributed_traffic_serv.BookingService.Saga.{Event}
use distributed_traffic_serv.VerificationService.Cache.{
  CachedBooking, Redis, cache_active_booking, invalidate_booking,
}
use distributed_traffic_serv.VerificationService.Lookup.{journey_window}

-- `plate.upper().strip()`, of a plate without the separators 28 to 31 of ASCII, which `strip` takes
-- away and `trim` does not.
abbrev pub normalised : String → String
normalised plate = trim (to_upper plate)

-- The booking of an event; a departure that is missing is the present.
abbrev pub cached_event : Event → ℕ → CachedBooking
cached_event e now = record {
  booking_id = e.booking_id;
  driver_id = e.driver_id;
  status = "CONFIRMED";
  departure_time = nullish e.departure_time now;
  journey_window_end = nullish e.departure_time now + journey_window;
  segments = e.regions;
}

-- `_handle_confirmed`; `none` where it raises at a plate that is None.
unfoldable pub handle_confirmed : Event → ℕ → Redis → Option Redis
unfolding cache_active_booking trim to_upper
handle_confirmed e now redis = elim e.plate_number as (λ _. Option Redis) [
  | none ↦ none
  | some p ↦
      if normalised p == ""
      then some redis
      else some (cache_active_booking (normalised p) (cached_event e now) now redis)
]

-- `_handle_cancelled_or_failed`.
unfoldable pub handle_cancelled_or_failed : Event → Redis → Option Redis
unfolding invalidate_booking trim to_upper
handle_cancelled_or_failed e redis = elim e.plate_number as (λ _. Option Redis) [
  | none ↦ none
  | some p ↦
      if normalised p == "" then some redis else some (invalidate_booking (normalised p) redis)
]

-- `_process_message`; `none` where the message is requeued.
unfoldable pub process_message : Event → ℕ → Redis → Option Redis
unfolding handle_confirmed handle_cancelled_or_failed
process_message e now redis =
    if e.routing_key == "booking.confirmed"
    then handle_confirmed e now redis
    else if e.routing_key == "booking.cancelled" || e.routing_key == "booking.failed"
    then handle_cancelled_or_failed e redis
    else some redis
