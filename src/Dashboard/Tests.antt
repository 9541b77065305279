-- ===== src/Dashboard/Tests.antt =====
-- Dashboard.tsx on two segments: what is shown, and the theorems on it.
use Prim.Native.Nat.{min}
use mathlib.Core.List.{Perm}
use distributed_traffic_serv.Base.{
  ℕ, ◌≡◌, refl, String, none, some, List, [], ◌∷◌, ◌++◌, length, map, sort_by, insert_sorted,
  InOrder,
}
use distributed_traffic_serv.Base.Decimal.{dec, ltb_decimal}
use distributed_traffic_serv.Api.Reply.{ApiError, ok, failed}
use distributed_traffic_serv.Api.Analytics.{DashboardStats, CapacityReport}
use distributed_traffic_serv.Dashboard.State.{
  Analytics, initial_analytics, Arrival, dashboard, capacity, usage, load_begun, load_rejected,
  begin, load, is_less_used, top_segments,
}
use distributed_traffic_serv.Dashboard.Loading.{zxy, first_error, all_loaded, load-all_or_nothing}
use distributed_traffic_serv.Dashboard.Ranking.{top_segments-most_used}

segment : String → ℕ → CapacityReport
segment id percent = record {
  segment_id = id;
  region = "IE";
  slot_start = "2026-04-01T10:00:00Z";
  booked_count = percent;
  max_capacity = 100;
  utilization_pct = dec percent 0;
}

abbrev report : List CapacityReport
report = segment "a" 10 ∷ segment "b" 95 ∷ []

abbrev with_report : Analytics
with_report = record initial_analytics { capacity = report }

order_test : map (λ r. r.segment_id) (top_segments with_report) ≡ "b" ∷ "a" ∷ []
unfolding top_segments insert_sorted sort_by ltb_decimal segment
order_test = refl

top_segments-most_used_test :
    (rest : List CapacityReport) × Perm (top_segments with_report ++ rest) report
    × InOrder is_less_used (top_segments with_report ++ rest)
    × (length (top_segments with_report) ≡ min 8 (length (top_segments with_report ++ rest)))
top_segments-most_used_test = top_segments-most_used with_report

abbrev refused : ApiError
refused = record {
  response = some (record { status = 503; detail = none });
  code = none;
  message = none;
}

abbrev statistics : DashboardStats
statistics = record {
  total_bookings = 3;
  confirmed = 2;
  cancelled = 1;
  failed = 0;
  by_region = [];
  last_updated = "2026-04-01T10:00:00Z";
}

-- The usage report fails before the two others are answered.
abbrev arrivals : List Arrival
arrivals = usage (failed refused) ∷ dashboard (ok statistics) ∷ capacity (ok report) ∷ []

load-all_or_nothing_test :
    (load arrivals (begin initial_analytics)).page
    ≡ (elim (first_error arrivals) as (λ _. Analytics) [
      | none ↦ all_loaded (ok statistics) (ok report) (failed refused) initial_analytics
      | some e ↦ load_rejected e (load_begun initial_analytics)
    ])
load-all_or_nothing_test =
    load-all_or_nothing (ok statistics) (ok report) (failed refused) arrivals zxy initial_analytics
