-- ===== src/BookingService/Store.antt =====
-- The tables that the booking service works on (database/init.sql, booking_service/models.py). The
-- three tables `reservations` are one list, each row with the schema that it stands in, and so are
-- the three `road_segments`. The random ids of reservations, which nothing reads, are left out. A
-- naive datetime is the number of its microseconds.
use distributed_traffic_serv.Base.{
  ℕ, ◌-◌, ◌%◌, ◌≡◌, ◌↔◌, String, Bool, true, false, Option, List, [], ◌∷◌, string_eq, Comparable,
  lookup, arith,
}
use distributed_traffic_serv.Api.Bookings.{BookingStatus, rejected, cancelled}

pub data Schema : Type 0 where
  region_ireland region_uk region_france : Schema

unfoldable pub schema_beq : Schema → Schema → Bool
schema_beq region_ireland region_ireland = true
schema_beq region_uk region_uk = true
schema_beq region_france region_france = true
schema_beq _ _ = false

pub schema_beq_iff : (a b : Schema) → (schema_beq a b ≡ true) ↔ (a ≡ b)
unfolding schema_beq
schema_beq_iff a b = ground arith

instance abbrev pub schema_eq : Comparable Schema
schema_eq = record { same = schema_beq; same_iff = schema_beq_iff }

-- `REGION_SCHEMA_MAP`.
abbrev pub region_schema_map : List (String × Schema)
region_schema_map =
    ("EU_WEST_IRELAND", region_ireland)
    ∷ ("EU_WEST_UK", region_uk)
    ∷ ("EU_WEST_FRANCE", region_france)
    ∷ []

-- `REGION_SCHEMA_MAP.get(region)`.
unfoldable pub schema_of : String → Option Schema
unfolding lookup
schema_of region = lookup region region_schema_map

pub record RoadSegment : Type 0 where
  pub schema : Schema
  pub id : String
  pub max_capacity_per_slot : ℕ

pub record Reservation : Type 0 where
  pub schema : Schema
  pub booking_id : String
  pub segment_id : String
  pub driver_id : String
  pub slot_start : ℕ
  pub slot_end : ℕ
  pub status : BookingStatus

pub record SegmentReservation : Type 0 where
  pub booking_id : String
  pub segment_id : String
  pub region : String
  pub slot_start : ℕ
  pub slot_end : ℕ
  pub status : BookingStatus

pub record Booking : Type 0 where
  pub id : String
  pub driver_id : String
  pub plate_number : Option String
  pub departure_time : ℕ
  pub status : BookingStatus
  pub estimated_duration_minutes : Option ℕ
  pub created_at : ℕ

-- The database of one node.
pub record Db : Type 0 where
  pub road_segments : List RoadSegment
  pub reservations : List Reservation
  pub segment_reservations : List SegmentReservation
  pub bookings : List Booking

-- `status NOT IN ('CANCELLED', 'REJECTED')`.
unfoldable pub is_active : BookingStatus → Bool
is_active cancelled = false
is_active rejected = false
is_active _ = true

abbrev pub hour : ℕ
hour = 3600000000

-- `t.replace(minute=0, second=0, microsecond=0)`.
unfoldable pub floor_hour : ℕ → ℕ
floor_hour t = t - t % hour
