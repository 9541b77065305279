-- ===== src/VerificationService/Warming.antt =====
-- What the event of a confirmed booking makes of the checks behind it.
use mathlib.Core.Path.{subst}
use distributed_traffic_serv.Base.{
  ℕ, ◌+◌, ◌≤◌, ◌≡◌, refl, sym, ◌∙◌, ltb, String, true, false, Option, some, List, ◌==◌, string_eq,
  arith,
}
use distributed_traffic_serv.Api.Verification.{cache}
use distributed_traffic_serv.BookingService.Store.{Booking}
use distributed_traffic_serv.BookingService.Saga.{Event}
use distributed_traffic_serv.VerificationService.Cache.{
  CachedBooking, Redis, cache_active_booking, get_cached_booking,
}
use distributed_traffic_serv.VerificationService.Lookup.{
  journey_window, gets, Answers, authorized, answer_cached, verify_plate,
}
use distributed_traffic_serv.VerificationService.Consumer.{
  normalised, cached_event, handle_confirmed, process_message,
}
use distributed_traffic_serv.VerificationService.Verdicts.{get-cache_active_booking}

answer_cached-fresh :
    (answers : Answers) (owner : String → Option String) (at : ℕ) (plate : String)
    (bookings : List Booking) (redis : Redis) (c : CachedBooking)
    → at ≤ c.journey_window_end
    → answer_cached answers owner at plate bookings redis (some c)
      ≡ (some (authorized plate c cache "cache" at), redis)
unfolding answer_cached
answer_cached-fresh answers owner at plate bookings redis c h =
    let fresh : ltb c.journey_window_end at ≡ false = ground arith in rw fresh refl

verify_plate-cached :
    (answers : Answers) (owner : String → Option String) (at : ℕ) (plate : String)
    (bookings : List Booking) (redis : Redis) (c : CachedBooking)
    → answers gets ≡ true
    → get_cached_booking plate at redis ≡ some c
    → at ≤ c.journey_window_end
    → verify_plate answers owner at plate bookings redis
      ≡ (some (authorized plate c cache "cache" at), redis)
unfolding verify_plate
verify_plate-cached answers owner at plate bookings redis c read e h = rw read (
    subst
      (λ found.
        answer_cached answers owner at plate bookings redis found
        ≡ (some (authorized plate c cache "cache" at), redis))
      (sym e) (answer_cached-fresh answers owner at plate bookings redis c h))

some_injective : {x y : Redis} → some x ≡ some y → x ≡ y
some_injective e = cc

process_message-stores :
    (e : Event) (p : String) (now : ℕ) (redis : Redis)
    → e.routing_key ≡ "booking.confirmed"
    → e.plate_number ≡ some p
    → (normalised p == "") ≡ false
    → process_message e now redis
      ≡ some (cache_active_booking (normalised p) (cached_event e now) now redis)
unfolding process_message handle_confirmed
process_message-stores e p now redis key plate shown =
    rw key (rw (plate, handle_confirmed) (rw shown refl))

-- Once the event of a confirmed booking that has a plate and a departure is handled, and while the
-- cache is as it left it and answers the read, each check of the plate until two hours behind the
-- departure authorises it with that booking, whatever the database says by then, the checks in front of the departure
-- included.
pub process_message-authorises :
    (answers : Answers) (owner : String → Option String) (e : Event) (p : String)
    (departure now at : ℕ) (bookings : List Booking) (redis redis' : Redis)
    → e.routing_key ≡ "booking.confirmed"
    → e.plate_number ≡ some p
    → (normalised p == "") ≡ false
    → e.departure_time ≡ some departure
    → process_message e now redis ≡ some redis'
    → now ≤ at
    → at ≤ departure + journey_window
    → answers gets ≡ true
    → verify_plate answers owner at (normalised p) bookings redis'
      ≡ (some (authorized (normalised p) (cached_event e now) cache "cache" at), redis')
process_message-authorises answers owner e p departure now at bookings redis redis' key plate shown
      departs handled h k read =
    let c : CachedBooking = cached_event e now in
    let open_ : at ≤ c.journey_window_end = rw departs k in
    let stored : Redis = cache_active_booking (normalised p) c now redis in
    let same : stored ≡ redis' =
      some_injective (sym (process_message-stores e p now redis key plate shown) ∙ handled) in
    verify_plate-cached answers owner at (normalised p) bookings redis' c read
      (subst (λ r. get_cached_booking (normalised p) at r ≡ some c) same
        (get-cache_active_booking (normalised p) c now at redis h open_))
      open_
