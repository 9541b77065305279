-- ===== src/AnalyticsService/Load.antt =====
-- routes.py: `capacity_report`, over the tables of the booking service.
use distributed_traffic_serv.Base.{
  ℕ, ltb, String, Bool, false, ◌&&◌, ◌||◌, Option, none, some, List, [], ◌∷◌, map, ◌==◌, string_eq,
  nat_eq, is_some, count, filter, take, sort_by, if◌then◌else◌,
}
use distributed_traffic_serv.Base.Decimal.{Decimal, dec}
use distributed_traffic_serv.BookingService.Store.{
  Schema, region_ireland, region_uk, region_france, schema_eq, Reservation, Db, is_active,
  floor_hour,
}
use distributed_traffic_serv.BookingService.Capacity.{find_capacity}
use distributed_traffic_serv.AnalyticsService.Reports.{Percent}

unfoldable pub region_name : Schema → String
region_name region_ireland = "EU_WEST_IRELAND"
region_name region_uk = "EU_WEST_UK"
region_name region_france = "EU_WEST_FRANCE"

-- What a reservation is grouped by: the table, the segment and `date_trunc('hour', …)`.
pub record Group : Type 0 where
  pub schema : Schema
  pub segment_id : String
  pub slot_start : ℕ

abbrev pub group_of : Reservation → Group
group_of r = record {
  schema = r.schema;
  segment_id = r.segment_id;
  slot_start = floor_hour r.slot_start;
}

unfoldable pub group_beq : Group → Group → Bool
group_beq g h = g.schema == h.schema && g.segment_id == h.segment_id && g.slot_start == h.slot_start

-- The rows that the join keeps.
unfoldable pub joined : Db → List Reservation
unfolding filter find_capacity
joined db =
    filter (λ r. is_some (find_capacity r.schema r.segment_id db.road_segments)) db.reservations

unfoldable pub has_group : Group → List Group → Bool
unfolding group_beq
has_group g [] = false
has_group g (h ∷ rest) = group_beq h g || has_group g rest

-- The groups of the rows, each once.
unfoldable pub groups : List Reservation → List Group
unfolding has_group floor_hour
groups [] = []
groups (r ∷ rows) =
    let rest = groups rows in if has_group (group_of r) rest then rest else group_of r ∷ rest

-- `COUNT(*) FILTER (WHERE status NOT IN …)` of a group.
unfoldable pub booked_count : Group → List Reservation → ℕ
unfolding group_beq count is_active floor_hour
booked_count g rows = count (λ r. group_beq (group_of r) g && is_active r.status) rows

pub record CapacityReport : Type 0 where
  pub segment_id : String
  pub region : String
  pub slot_start : ℕ
  pub booked_count : ℕ
  pub max_capacity : ℕ
  pub utilization_pct : Decimal

-- `int(row["max_capacity"] or 0)`, of a segment that its id finds.
abbrev pub or_zero : Option ℕ → ℕ
or_zero none = 0
or_zero (some n) = n

-- `round(…, 2)` of the percentage is the runtime's.
unfoldable pub report_of : Percent → Db → Group → CapacityReport
unfolding booked_count find_capacity region_name joined
report_of percent db g =
    let booked : ℕ = booked_count g (joined db) in
    let max : ℕ = or_zero (find_capacity g.schema g.segment_id db.road_segments) in
    record {
      segment_id = g.segment_id;
      region = region_name g.schema;
      slot_start = g.slot_start;
      booked_count = booked;
      max_capacity = max;
      utilization_pct = if ltb 0 max then percent booked max else dec 0 0;
    }

abbrev pub is_earlier : Group → Group → Bool
is_earlier g h = ltb g.slot_start h.slot_start

-- `capacity_report`: groups of one hour, whose order SQL leaves open, keep that of the tables.
unfoldable pub capacity_report : Percent → Db → List CapacityReport
unfolding report_of groups joined sort_by
capacity_report percent db =
    map (report_of percent db) (take 300 (sort_by is_earlier (groups (joined db))))
