-- ===== src/Dashboard/View.antt =====
-- What Dashboard.tsx renders.
use distributed_traffic_serv.Base.{
  ℕ, ltb, String, ◌<>◌, Bool, not, Option, none, some, List, [], ◌∷◌, map, truthy, slice_to,
  ToLocale, if◌then◌else◌, sort_by,
}
use distributed_traffic_serv.Base.Decimal.{ltb_decimal, dec, ToFixed}
use distributed_traffic_serv.Base.Numeral.{to_decimal}
use distributed_traffic_serv.Api.Reply.{Message, shown}
use distributed_traffic_serv.Api.Analytics.{DashboardStats, CapacityReport, UsageReport}
use distributed_traffic_serv.Dashboard.State.{Analytics, top_segments}

-- `StatCard`.
pub record StatCard : Type 0 where
  pub label : String
  pub value : String
  pub color : String

abbrev stat_card : String → ℕ → String → StatCard
stat_card label value color = record { label = label; value = to_decimal value; color = color }

-- The two cells of a line: a name and a number.
pub record CountLine : Type 0 where
  pub name : String
  pub count : String

-- `said` is the text that stands in place of missing data.
pub data RegionBox : Type 0 where
  said : String → RegionBox
  regions : List CountLine → RegionBox

pub data UsageBox : Type 0 where
  no_usage : String → UsageBox
  used : (last_24h total : String) → List CountLine → UsageBox

pub record SegmentRow : Type 0 where
  pub segment : String
  pub region : String
  pub slot : String
  pub booked : String
  pub color : String
  pub utilization : String

pub data SegmentBox : Type 0 where
  no_segments : String → SegmentBox
  table : (headings : List String) → List SegmentRow → SegmentBox

pub record Overview : Type 0 where
  pub heading : String
  pub last_update : Option String
  pub error : Option Message
  pub cards : List StatCard
  pub by_region : RegionBox
  pub usage : UsageBox
  pub top : SegmentBox

pub data DashboardScreen : Type 0 where
  waiting : String → DashboardScreen
  overview : Overview → DashboardScreen

-- The four cards, if there are statistics.
unfoldable pub stat_cards : Option DashboardStats → List StatCard
stat_cards none = []
stat_cards (some stats) =
    stat_card "Total Events" stats.total_bookings "var(--ink)"
    ∷ stat_card "Confirmed" stats.confirmed "var(--green)"
    ∷ stat_card "Cancelled" stats.cancelled "var(--amber)"
    ∷ stat_card "Failed" stats.failed "var(--red)"
    ∷ []

abbrev count_line : String × ℕ → CountLine
count_line (name, count) = record { name = name; count = to_decimal count }

-- `compare(a, b) > 0`, of the entries.
abbrev pub has_fewer : String × ℕ → String × ℕ → Bool
has_fewer (_, m) (_, n) = ltb m n

unfoldable pub region_lines : List (String × ℕ) → RegionBox
unfolding sort_by
region_lines [] = said "No regional events yet."
region_lines (e ∷ rest) = regions (map count_line (sort_by has_fewer (e ∷ rest)))

unfoldable pub region_box : Option DashboardStats → RegionBox
unfolding region_lines
region_box none = said "No regional events yet."
region_box (some stats) = region_lines stats.by_region

unfoldable pub usage_box : Option UsageReport → UsageBox
usage_box none = no_usage "No usage data yet."
usage_box (some usage) =
    used (to_decimal usage.last_24h_events) (to_decimal usage.total_events)
      (map count_line usage.by_event_type)

module _ (to_fixed : ToFixed) (to_locale short_locale : ToLocale) where
  -- `stats?.last_updated && …`.
  unfoldable pub last_update : Option DashboardStats → Option String
  last_update none = none
  last_update (some stats) =
      if truthy stats.last_updated
      then some ("LAST UPDATE " <> to_locale stats.last_updated)
      else none

  unfoldable pub segment_row : CapacityReport → SegmentRow
  unfolding slice_to ltb_decimal
  segment_row r = record {
    segment = slice_to 8 r.segment_id <> "…";
    region = r.region;
    slot = short_locale r.slot_start;
    booked = to_decimal r.booked_count <> (" / " <> to_decimal r.max_capacity);
    color = if not (ltb_decimal r.utilization_pct (dec 90 0)) then "var(--red)" else "var(--ink)";
    utilization = to_fixed r.utilization_pct <> "%";
  }

  unfoldable pub segment_box : List CapacityReport → SegmentBox
  unfolding segment_row
  segment_box [] = no_segments "No segment utilization data yet."
  segment_box (r ∷ rest) =
      table ("Segment" ∷ "Region" ∷ "Slot" ∷ "Booked / Max" ∷ "Utilization" ∷ [])
        (map segment_row (r ∷ rest))

  -- The whole page.
  unfoldable pub dashboard_screen : Analytics → DashboardScreen
  unfolding last_update stat_cards region_box usage_box segment_box top_segments
  dashboard_screen s =
      if s.loading
      then waiting "Loading analytics…"
      else overview (record {
        heading = "Distributed System Dashboard";
        last_update = last_update s.stats;
        error = if shown s.error then some s.error else none;
        cards = stat_cards s.stats;
        by_region = region_box s.stats;
        usage = usage_box s.usage;
        top = segment_box (top_segments s);
      })
