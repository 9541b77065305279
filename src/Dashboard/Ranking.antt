-- ===== src/Dashboard/Ranking.antt =====
-- The table "Top Capacity Utilization" of Dashboard.tsx.
use Prim.Native.Nat.{min}
use mathlib.Core.List.{Perm}
use distributed_traffic_serv.Base.{
  ◌≡◌, List, ◌++◌, drop, take-drop, length, length-take, sort_by, sort_by-perm, InOrder,
  sort_by-InOrder,
}
use distributed_traffic_serv.Base.Decimal.{ltb_decimal_asym, ltb_decimal_negtrans}
use distributed_traffic_serv.Api.Analytics.{CapacityReport}
use distributed_traffic_serv.Dashboard.State.{Analytics, is_less_used, top_segments}

abbrev ranked : Analytics → List CapacityReport
ranked s = sort_by is_less_used s.capacity

-- The table has the eight most used segments, or all if there are fewer, in the order of their
-- use: with the segments that it leaves out behind its rows, all segments of the report are there
-- and none stands before one that is used more.
pub top_segments-most_used :
    (s : Analytics)
    → (rest : List CapacityReport) × Perm (top_segments s ++ rest) s.capacity
      × InOrder is_less_used (top_segments s ++ rest)
      × (length (top_segments s) ≡ min 8 (length (top_segments s ++ rest)))
unfolding top_segments
top_segments-most_used s = (
  drop 8 (ranked s),
  rw (take-drop 8 (ranked s)) (sort_by-perm is_less_used s.capacity),
  rw (take-drop 8 (ranked s)) (
      sort_by-InOrder is_less_used (λ x y h. ltb_decimal_asym x.utilization_pct y.utilization_pct h)
        (λ x y z h k.
          ltb_decimal_negtrans x.utilization_pct y.utilization_pct z.utilization_pct h k)
        s.capacity),
  rw (take-drop 8 (ranked s)) (length-take 8 (ranked s)),
)
