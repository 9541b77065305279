-- ===== src/BookingService/Saga.antt =====
-- saga.py: `execute_booking_saga` on a node and its peer. Each node has a database of its own. What
-- the network, the locks, the database and the broker do on the way is a record of their answers.
mod Setting
unfoldable pub use Setting.*
use distributed_traffic_serv.Base.{
  ℕ, String, Bool, true, false, not, ◌&&◌, Option, none, some, List, [], ◌∷◌, ◌++◌, map, includes,
  ◌==◌, nat_eq, string_eq, if◌then◌else◌,
}
use distributed_traffic_serv.Api.Bookings.{confirmed}
use distributed_traffic_serv.BookingService.Store.{
  Schema, schema_of, Reservation, SegmentReservation, Db,
}
use distributed_traffic_serv.BookingService.Capacity.{
  check_capacity, reserve_segment, release_segment,
}
use distributed_traffic_serv.BookingService.Peer.{
  Lock, acquired, held, redis_down, PeerReserveRequest, refuses, peer_reserve, peer_release,
}

-- Where the loop over the segments is: the database as the session sees it, the peer's, the list
-- `reserved`, and `peer_reserved`.
pub record Progress : Type 0 where
  pub here : Db
  pub there : Db
  pub reserved : List RouteSegment
  pub peer_reserved : Bool

abbrev pub nothing_reserved : Db → Db → Progress
nothing_reserved here there = record {
  here = here;
  there = there;
  reserved = [];
  peer_reserved = false;
}

abbrev pub local_row : Job → Schema → RouteSegment → Reservation
local_row job schema seg = record {
  schema = schema;
  booking_id = job.booking_id;
  segment_id = seg.segment_id;
  driver_id = job.driver_id;
  slot_start = seg.slot_start;
  slot_end = seg.slot_end;
  status = confirmed;
}

abbrev pub segment_row : Job → RouteSegment → SegmentReservation
segment_row job seg = record {
  booking_id = job.booking_id;
  segment_id = seg.segment_id;
  region = seg.region;
  slot_start = seg.slot_start;
  slot_end = seg.slot_end;
  status = confirmed;
}

unfoldable pub written : Job → RouteSegment → Progress → Option Db → Progress × Option SagaError
written job seg p none = (p, some database_refused)
written job seg p (some db) = (
  record p {
    here = record db { segment_reservations = segment_row job seg ∷ db.segment_reservations };
    reserved = p.reserved ++ (seg ∷ []);
  },
  none,
)

-- A local segment.
unfoldable pub reserve_local :
    Lock → Job → Schema → RouteSegment → Progress → Progress × Option SagaError
unfolding written check_capacity reserve_segment
reserve_local held job schema seg p = (p, some (lock_taken seg.segment_id seg.slot_start))
reserve_local redis_down job schema seg p = (p, some lock_server_down)
reserve_local acquired job schema seg p =
    if refuses (check_capacity p.here schema seg.segment_id seg.slot_start)
    then (p, some (segment_full seg.segment_id seg.slot_start))
    else written job seg p (reserve_segment (local_row job schema seg) p.here)

abbrev pub peer_request : Job → RouteSegment → PeerReserveRequest
peer_request job seg = record {
  booking_id = job.booking_id;
  segment_id = seg.segment_id;
  region = seg.region;
  driver_id = job.driver_id;
  slot_start = seg.slot_start;
  slot_end = seg.slot_end;
}

-- `_peer_reserve` behind an answer, and the rest of the step.
unfoldable pub heard : RouteSegment → ℕ × Db → Progress → Progress × Option SagaError
heard seg (code, there) p =
    if code == 409
    then (record p { there = there }, some (peer_full seg.segment_id))
    else if code == 201
    then (
      record p { there = there; reserved = p.reserved ++ (seg ∷ []); peer_reserved = true },
      none,
    )
    else (record p { there = there }, some (peer_status code))

-- A segment of the peer's.
unfoldable pub reserve_remote :
    Link → Lock → Job → RouteSegment → Progress → Progress × Option SagaError
unfolding heard peer_reserve
reserve_remote request_lost lock job seg p = (p, some (region_unavailable seg.region))
reserve_remote answer_lost lock job seg p = (
  record p { there = (peer_reserve lock (peer_request job seg) p.there).1 },
  some (region_unavailable seg.region),
)
reserve_remote answer_broken lock job seg p =
    (record p { there = (peer_reserve lock (peer_request job seg) p.there).1 }, some answer_unread)
reserve_remote answered lock job seg p =
    heard seg (peer_reserve lock (peer_request job seg) p.there) p

abbrev pub is_unavailable : SagaError → Bool
is_unavailable (region_unavailable region) = true
is_unavailable _ = false

-- How the saga ends: both databases, the exception, and the events that were published.
pub record Ended : Type 0 where
  pub here : Db
  pub there : Db
  pub error : Option SagaError
  pub events : List Event

module _ (config : Config) (env : Env) (job : Job) where
  unfoldable pub reserve_known :
      RouteSegment → Option Schema → Progress → Progress × Option SagaError
  unfolding is_local reserve_local reserve_remote
  reserve_known seg none p = (p, some (unknown_region seg.region))
  reserve_known seg (some schema) p =
      if is_local config seg.region
      then reserve_local (env.lock seg) job schema seg p
      else reserve_remote (env.link seg) (env.peer_lock seg) job seg p

  -- One step of the loop.
  unfoldable pub reserve_one : RouteSegment → Progress → Progress × Option SagaError
  unfolding reserve_known schema_of
  reserve_one seg p = reserve_known seg (schema_of seg.region) p

  -- The loop, which the first exception leaves.
  unfoldable pub reserve_all : List RouteSegment → Progress → Progress × Option SagaError
  unfolding reserve_one
  reserve_all [] p = (p, none)
  reserve_all (seg ∷ rest) p =
      let (p', error) = reserve_one seg p in
      elim error as (λ _. Progress × Option SagaError) [
        | none ↦ reserve_all rest p'
        | some e ↦ (p', some e)
      ]

  unfoldable pub compensate_one : RouteSegment → Option Schema → Db → Db
  unfolding is_local release_segment
  compensate_one seg none db = db
  compensate_one seg (some schema) db =
      if is_local config seg.region && env.releases seg
      then release_segment schema job.booking_id db
      else db

  -- The compensating transactions of this node.
  unfoldable pub compensate : List RouteSegment → Db → Db
  unfolding compensate_one schema_of
  compensate [] db = db
  compensate (seg ∷ rest) db = compensate rest (compensate_one seg (schema_of seg.region) db)

  -- `_peer_release`, whose own failure is only logged.
  unfoldable pub roll_back_peer : Link → Db → Db
  unfolding peer_release
  roll_back_peer request_lost there = there
  roll_back_peer _ there = peer_release job.booking_id there

  abbrev pub confirmed_event : List RouteSegment → Event
  confirmed_event reserved = record {
    routing_key = "booking.confirmed";
    booking_id = job.booking_id;
    driver_id = job.driver_id;
    plate_number = job.plate_number;
    regions = map (λ seg. seg.region) reserved;
    departure_time = some job.departure_time;
  }

  abbrev pub failed_event : Event
  failed_event = record {
    routing_key = "booking.failed";
    booking_id = job.booking_id;
    driver_id = job.driver_id;
    plate_number = job.plate_number;
    regions = [];
    departure_time = none;
  }

  -- The `except`: `committed` is what the rollback leaves of this node's database.
  unfoldable pub saga_failed : SagaError → Db → Progress → Ended
  unfolding compensate roll_back_peer
  saga_failed e committed p = record {
    here = compensate p.reserved committed;
    there =
        if p.peer_reserved && config.has_peer && not (is_unavailable e)
        then roll_back_peer env.release_link p.there
        else p.there;
    error = if env.takes_failed then some e else some broker_down;
    events = if env.takes_failed then failed_event ∷ [] else [];
  }

  -- The `try` behind the loop.
  unfoldable pub saga_reserved : Db → Progress → Option SagaError → Ended
  unfolding saga_failed
  saga_reserved before p (some e) = saga_failed e before p
  saga_reserved before p none =
      if not env.commits
      then saga_failed database_refused before p
      else if not env.takes_confirmed
      then saga_failed broker_down p.here p
      else record {
        here = p.here;
        there = p.there;
        error = none;
        events = confirmed_event p.reserved ∷ [];
      }

  -- `execute_booking_saga` behind `resolve_route`: `before` is the database as it was committed last,
  -- `here` as the session sees it.
  unfoldable pub execute_booking_saga : List RouteSegment → (before here there : Db) → Ended
  unfolding saga_reserved reserve_all
  execute_booking_saga route before here there =
      let (p, error) = reserve_all route (nothing_reserved here there) in
      saga_reserved before p error
