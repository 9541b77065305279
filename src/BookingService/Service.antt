-- ===== src/BookingService/Service.antt =====
-- service.py: `create_booking`, `cancel_booking` and the readers, and what routes.py answers.
use distributed_traffic_serv.Base.{
  ℕ, zero, suc, String, ◌<>◌, Bool, true, false, Option, none, some, List, [], ◌∷◌, map, ◌==◌,
  string_eq, filter, truthy, if◌then◌else◌,
}
use distributed_traffic_serv.Api.Bookings.{
  BookingStatus, confirmed, rejected, cancelled, saga_in_progress,
}
use distributed_traffic_serv.BookingService.Store.{Booking, SegmentReservation, Db}
use distributed_traffic_serv.BookingService.Saga.{
  RouteSegment, Config, Env, Job, Event, SagaError, segment_full, peer_full, region_unavailable,
  lock_taken, database_refused, no_route, no_roads, Ended, execute_booking_saga,
}

-- What `resolve_route` comes to: the segments and the minutes, or RouteNotFoundError, where it finds
-- no path or the database has no road.
pub data Route : Type 0 where
  found : List RouteSegment → ℕ → Route
  not_found empty : Route

-- `SELECT … FROM bookings WHERE id = :id`.
unfoldable pub find_booking : String → List Booking → Option Booking
find_booking id [] = none
find_booking id (b ∷ rest) = if b.id == id then some b else find_booking id rest

-- `db.add(booking)` and the flush: the row of its id is written anew, or added.
unfoldable pub put_booking : Booking → List Booking → List Booking
put_booking b [] = b ∷ []
put_booking b (x ∷ rest) =
    let more = put_booking b rest in if x.id == b.id then b ∷ rest else x ∷ more

abbrev pub put : Booking → Db → Db
put b db = record db { bookings = put_booking b db.bookings }

-- `plate_number or await _get_driver_plate_number(…)`.
unfoldable pub resolve_plate : Option String → Option String → Option String
resolve_plate none own = own
resolve_plate (some plate) own = if truthy plate then some plate else own

-- `int(… or 60)` and `max(1, …)`.
unfoldable pub booked_minutes : ℕ → ℕ
booked_minutes zero = 60
booked_minutes (suc n) = suc n

abbrev pub new_booking : Job → ℕ → Booking
new_booking job now = record {
  id = job.booking_id;
  driver_id = job.driver_id;
  plate_number = job.plate_number;
  departure_time = job.departure_time;
  status = saga_in_progress;
  estimated_duration_minutes = none;
  created_at = now;
}

-- What is left of a call: both databases, the booking or the exception, and the events.
pub record Created : Type 0 where
  pub here : Db
  pub there : Db
  pub booking : Booking
  pub error : Option SagaError
  pub events : List Event

-- The exception that the `except` clauses see: that of the saga, or of the commit or the refresh of
-- the settled booking behind it.
unfoldable pub settle_error : Bool → Option SagaError → Option SagaError
settle_error settles (some e) = some e
settle_error settles none = if settles then none else some database_refused

-- The `try` and the `except` clauses behind the saga, which all store the booking. What the saga has
-- reserved stays as it is. That a commit of an `except` clause fails too is left out.
unfoldable pub settle_booking : Bool → ℕ → Booking → Ended → Created
unfolding put_booking booked_minutes settle_error
settle_booking settles minutes b ended = elim (settle_error settles ended.error) as (λ _. Created) [
  | none ↦
      let done : Booking = record b {
        status = confirmed;
        estimated_duration_minutes = some (booked_minutes minutes);
      } in
      record {
        here = put done ended.here;
        there = ended.there;
        booking = done;
        error = none;
        events = ended.events;
      }
  | some e ↦
      let refused : Booking = record b { status = rejected } in
      record {
        here = put refused ended.here;
        there = ended.there;
        booking = refused;
        error = some e;
        events = ended.events;
      }
]

-- The saga where `resolve_route` raises, in front of its `try`.
abbrev pub ended_without_route : SagaError → (here there : Db) → Ended
ended_without_route e here there = record {
  here = here;
  there = there;
  error = some e;
  events = [];
}

-- `create_booking`, at the time `now`, for a booking id that is new. `here` and `there` are the
-- databases of the node and of its peer.
unfoldable pub create_booking : Config → Env → Job → ℕ → Route → (here there : Db) → Created
unfolding settle_booking execute_booking_saga
create_booking config env job now (found route minutes) here there =
    let b : Booking = new_booking job now in
    settle_booking env.settles minutes b
      (execute_booking_saga config env job route here (put b here) there)
create_booking config env job now not_found here there =
    settle_booking env.settles 0 (new_booking job now) (ended_without_route no_route here there)
create_booking config env job now empty here there =
    settle_booking env.settles 0 (new_booking job now) (ended_without_route no_roads here there)

-- `str(e)`. The texts of exceptions that libraries raise are those of `library_text`, and `iso` is
-- `isoformat`.
unfoldable pub error_text : (SagaError → String) → (ℕ → String) → SagaError → String
error_text library_text iso (segment_full id slot) =
    "Segment " <> (id <> (" is full for slot " <> iso slot))
error_text library_text iso (peer_full id) = "Peer: segment " <> (id <> " is full")
error_text library_text iso (region_unavailable region) =
    "Regional node for "
    <> (region <> " is currently unavailable. Please try a same-region route or try again later.")
error_text library_text iso (lock_taken id slot) =
    "Could not acquire lock for segment " <> (id <> (" slot " <> iso slot))
error_text library_text iso no_route = "No valid path found between origin and destination"
error_text library_text iso no_roads = "Road network is empty; cannot resolve route"
error_text library_text iso e = library_text e

-- The status that routes.py answers a failed `create_booking` with; the detail is the text.
unfoldable pub error_status : SagaError → ℕ
error_status (region_unavailable region) = 503
error_status e = 409

-- What `cancel_booking` comes to.
pub data Cancelled : Type 0 where
  unknown forbidden : Cancelled
  unchanged : Booking → Cancelled
  done : Booking → Cancelled

abbrev pub cancel_rows : String → List SegmentReservation → List SegmentReservation
cancel_rows id rows =
    map (λ r. if r.booking_id == id then record r { status = cancelled } else r) rows

unfoldable pub is_cancelled : BookingStatus → Bool
is_cancelled cancelled = true
is_cancelled _ = false

unfoldable pub cancel_found : String → Db → Option Booking → Db × Cancelled
unfolding is_cancelled put_booking
cancel_found driver_id db none = (db, unknown)
cancel_found driver_id db (some b) =
    let gone : Booking = record b { status = cancelled } in
    if b.driver_id == driver_id
    then (if is_cancelled b.status then (db, unchanged b) else (
      record (put gone db) { segment_reservations = cancel_rows b.id db.segment_reservations },
      done gone,
    ))
    else (db, forbidden)

-- `cancel_booking`, up to the event that it publishes (`cancel_events`).
unfoldable pub cancel_booking : String → String → Db → Db × Cancelled
unfolding cancel_found find_booking
cancel_booking id driver_id db = cancel_found driver_id db (find_booking id db.bookings)

-- The event behind a cancellation, where `own` is the plate of the driver. That the broker refuses it
-- is only logged.
unfoldable pub cancel_events : Option String → Cancelled → List Event
unfolding resolve_plate
cancel_events own (done b) =
    record {
      routing_key = "booking.cancelled";
      booking_id = b.id;
      driver_id = b.driver_id;
      plate_number = resolve_plate b.plate_number own;
      regions = [];
      departure_time = some b.departure_time;
    }
    ∷ []
cancel_events own _ = []

-- The status that routes.py answers a cancellation with.
unfoldable pub cancel_status : Cancelled → ℕ
cancel_status unknown = 404
cancel_status forbidden = 403
cancel_status _ = 200

-- `get_driver_bookings`.
unfoldable pub get_driver_bookings : String → Db → List Booking
unfolding filter
get_driver_bookings driver_id db = filter (λ b. b.driver_id == driver_id) db.bookings
