-- ===== src/BookingService/Peer.antt =====
-- The lock of distributed_lock.py, and the two endpoints of routes.py that a peer node calls.
use distributed_traffic_serv.Base.{ℕ, leb, String, Bool, false, Option, none, some, if◌then◌else◌}
use distributed_traffic_serv.Api.Bookings.{confirmed}
use distributed_traffic_serv.BookingService.Store.{
  Schema, region_ireland, region_uk, region_france, schema_of, Reservation, Db,
}
use distributed_traffic_serv.BookingService.Capacity.{
  Capacity, check_capacity, reserve_segment, release_segment,
}

-- What `redis.set(key, token, nx=True, px=…)` comes to. That the lock is released again is taken
-- to succeed.
pub data Lock : Type 0 where
  acquired held redis_down : Lock

pub record PeerReserveRequest : Type 0 where
  pub booking_id : String
  pub segment_id : String
  pub region : String
  pub driver_id : String
  pub slot_start : ℕ
  pub slot_end : ℕ

-- `cap["booked"] >= cap["max"]`.
abbrev pub is_full : Capacity → Bool
is_full cap = leb cap.max cap.booked

-- `if cap["booked"] >= cap["max"]`; a segment that is not found has no capacity to ask for.
abbrev pub refuses : Option Capacity → Bool
refuses none = false
refuses (some cap) = is_full cap

abbrev pub peer_row : Schema → PeerReserveRequest → Reservation
peer_row schema req = record {
  schema = schema;
  booking_id = req.booking_id;
  segment_id = req.segment_id;
  driver_id = req.driver_id;
  slot_start = req.slot_start;
  slot_end = req.slot_end;
  status = confirmed;
}

-- The status of the answer, and the database behind it. An exception that no handler takes is
-- answered with 500.
unfoldable pub committed : Db → Option Db → ℕ × Db
committed db none = (500, db)
committed db (some db') = (201, db')

unfoldable pub reserve_within : Schema → PeerReserveRequest → Db → Option Capacity → ℕ × Db
unfolding committed reserve_segment
reserve_within schema req db none = (500, db)
reserve_within schema req db (some cap) =
    if is_full cap then (409, db) else committed db (reserve_segment (peer_row schema req) db)

unfoldable pub reserve_in : Lock → PeerReserveRequest → Db → Option Schema → ℕ × Db
unfolding reserve_within check_capacity
reserve_in lock req db none = (400, db)
reserve_in acquired req db (some schema) =
    reserve_within schema req db (check_capacity db schema req.segment_id req.slot_start)
reserve_in _ req db (some schema) = (500, db)

-- `peer_reserve` of routes.py.
unfoldable pub peer_reserve : Lock → PeerReserveRequest → Db → ℕ × Db
unfolding reserve_in schema_of
peer_reserve lock req db = reserve_in lock req db (schema_of req.region)

-- `peer_release` of routes.py.
unfoldable pub peer_release : String → Db → Db
unfolding release_segment
peer_release booking_id db =
    release_segment region_france booking_id
      (release_segment region_uk booking_id (release_segment region_ireland booking_id db))
