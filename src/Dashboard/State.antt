-- ===== src/Dashboard/State.antt =====
-- The state of the page, its `load`, and the derived `topSegments`.
use distributed_traffic_serv.Base.{
  Bool, true, false, Option, none, some, List, [], ◌∷◌, sort_by, take,
}
use distributed_traffic_serv.Base.Decimal.{ltb_decimal}
use distributed_traffic_serv.Api.Reply.{Message, text, ApiError, Reply, ok, failed, detail_or}
use distributed_traffic_serv.Api.Analytics.{DashboardStats, CapacityReport, UsageReport}

pub record Analytics : Type 0 where
  pub stats : Option DashboardStats
  pub capacity : List CapacityReport
  pub usage : Option UsageReport
  pub loading : Bool
  pub error : Message

abbrev pub initial_analytics : Analytics
initial_analytics = record {
  stats = none;
  capacity = [];
  usage = none;
  loading = true;
  error = text "";
}

-- One of the three requests of `load` as it settles.
pub data Arrival : Type 0 where
  dashboard : Reply DashboardStats → Arrival
  capacity : Reply (List CapacityReport) → Arrival
  usage : Reply UsageReport → Arrival

-- What `Promise.all` has of the three.
pub record Pending : Type 0 where
  pub stats : Option DashboardStats
  pub capacity : Option (List CapacityReport)
  pub usage : Option UsageReport

abbrev pub nothing_yet : Pending
nothing_yet = record { stats = none; capacity = none; usage = none }

-- `load`, up to its `await`.
abbrev pub load_begun : Analytics → Analytics
load_begun s = record s { loading = true; error = text "" }

-- `load` from the rejection of the `await` on.
unfoldable pub load_rejected : ApiError → Analytics → Analytics
unfolding detail_or
load_rejected e s = record s {
  loading = false;
  error = detail_or e "Failed to load analytics dashboard.";
}

fulfilled :
    Option DashboardStats
    → Option (List CapacityReport)
    → Option UsageReport
    → Analytics
    → Option Analytics
fulfilled (some d) (some c) (some u) s =
    some (record s { stats = some d; capacity = c; usage = some u; loading = false })
fulfilled _ _ _ s = none

-- `load` from the end of the `await` on, once all three are there.
unfoldable pub load_fulfilled : Pending → Analytics → Option Analytics
unfolding fulfilled
load_fulfilled p s = fulfilled p.stats p.capacity p.usage s

-- A load under way: `pending` is `none` once the promise is settled.
pub record Load : Type 0 where
  pub page : Analytics
  pub pending : Option Pending

unfoldable pub begin : Analytics → Load
begin s = record { page = load_begun s; pending = some nothing_yet }

-- The promise is fulfilled once it has all three.
finish : Pending → Option Analytics → Analytics → Load
finish p none s = record { page = s; pending = some p }
finish p (some loaded) s = record { page = loaded; pending = none }

reject : ApiError → Analytics → Load
unfolding load_rejected
reject e s = record { page = load_rejected e s; pending = none }

note : Arrival → Pending → Analytics → Load
unfolding finish reject load_fulfilled
note (dashboard (ok d)) p s =
    let q : Pending = record p { stats = some d } in finish q (load_fulfilled q s) s
note (capacity (ok c)) p s =
    let q : Pending = record p { capacity = some c } in finish q (load_fulfilled q s) s
note (usage (ok u)) p s =
    let q : Pending = record p { usage = some u } in finish q (load_fulfilled q s) s
note (dashboard (failed e)) p s = reject e s
note (capacity (failed e)) p s = reject e s
note (usage (failed e)) p s = reject e s

-- One arrival. A promise that is settled stays as it is.
unfoldable pub arrive : Arrival → Load → Load
unfolding note
arrive a l = elim l.pending [ none ↦ l | some p ↦ note a p l.page ]

-- The arrivals of a load, in their order.
unfoldable pub load : List Arrival → Load → Load
unfolding arrive
load [] l = l
load (a ∷ rest) l = load rest (arrive a l)

-- `compare(a, b) > 0`, of the segments.
abbrev pub is_less_used : CapacityReport → CapacityReport → Bool
is_less_used a b = ltb_decimal a.utilization_pct b.utilization_pct

-- `topSegments`.
unfoldable pub top_segments : Analytics → List CapacityReport
unfolding sort_by
top_segments s = take 8 (sort_by is_less_used s.capacity)
