-- ===== src/BookingService/Capacity.antt =====
-- capacity.py.
use distributed_traffic_serv.Base.{
  ℕ, ◌+◌, String, Bool, Option, none, some, List, [], ◌∷◌, map, ◌&&◌, ◌==◌, string_eq, nat_eq,
  count, is_some, if◌then◌else◌,
}
use distributed_traffic_serv.Api.Bookings.{cancelled}
use distributed_traffic_serv.BookingService.Store.{
  Schema, schema_eq, RoadSegment, Reservation, Db, is_active, floor_hour, hour,
}

-- `SELECT max_capacity_per_slot FROM {schema}.road_segments WHERE id = :sid`.
unfoldable pub find_capacity : Schema → String → List RoadSegment → Option ℕ
find_capacity schema id [] = none
find_capacity schema id (s ∷ rest) =
    if s.schema == schema && s.id == id
    then some s.max_capacity_per_slot
    else find_capacity schema id rest

-- Whether a row is counted for a segment and a slot.
abbrev pub takes : Schema → String → ℕ → Reservation → Bool
takes schema id slot r =
    r.schema == schema && r.segment_id == id && r.slot_start == slot && is_active r.status

-- `SELECT COUNT(*) FROM {schema}.reservations WHERE …`.
unfoldable pub booked : Schema → String → ℕ → List Reservation → ℕ
unfolding count is_active
booked schema id slot rows = count (takes schema id slot) rows

pub record Capacity : Type 0 where
  pub slot_start : ℕ
  pub slot_end : ℕ
  pub booked : ℕ
  pub max : ℕ

-- `check_capacity`; `none` where it raises SegmentNotFoundError.
unfoldable pub check_capacity : Db → Schema → String → ℕ → Option Capacity
unfolding booked find_capacity floor_hour
check_capacity db schema id departure =
    elim (find_capacity schema id db.road_segments) as (λ _. Option Capacity) [
      | none ↦ none
      | some max ↦ some (record {
        slot_start = floor_hour departure;
        slot_end = floor_hour departure + hour;
        booked = booked schema id (floor_hour departure) db.reservations;
        max = max;
      })
    ]

-- `reserve_segment`; `none` where the foreign key of the table refuses a segment that is not in
-- `road_segments`.
unfoldable pub reserve_segment : Reservation → Db → Option Db
unfolding find_capacity
reserve_segment r db =
    if is_some (find_capacity r.schema r.segment_id db.road_segments)
    then some (record db { reservations = r ∷ db.reservations })
    else none

-- `UPDATE {schema}.reservations SET status = 'CANCELLED' WHERE booking_id = :bid`, of one row.
abbrev pub release_row : Schema → String → Reservation → Reservation
release_row schema booking_id r =
    if r.schema == schema && r.booking_id == booking_id then record r { status = cancelled } else r

-- `release_segment`.
unfoldable pub release_segment : Schema → String → Db → Db
release_segment schema booking_id db = record db {
  reservations = map (release_row schema booking_id) db.reservations;
}
