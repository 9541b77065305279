-- ===== src/Dashboard/Loading.antt =====
-- `Promise.all` in Dashboard.tsx: all three answers, or the first error.
use distributed_traffic_serv.Base.{◌≡◌, false, Option, none, some, List, [], ◌∷◌, arith}
use distributed_traffic_serv.Api.Reply.{text, ApiError, Reply, ok, failed}
use distributed_traffic_serv.Api.Analytics.{DashboardStats, CapacityReport, UsageReport}
use distributed_traffic_serv.Dashboard.State.{
  Analytics, Arrival, dashboard, capacity, usage, load_begun, load_rejected, begin, load,
}

-- The three answers in the order in which they arrive.
pub data Orders (x y z : Arrival) : List Arrival → Type 0 where
  xyz : Orders x y z (x ∷ y ∷ z ∷ [])
  xzy : Orders x y z (x ∷ z ∷ y ∷ [])
  yxz : Orders x y z (y ∷ x ∷ z ∷ [])
  yzx : Orders x y z (y ∷ z ∷ x ∷ [])
  zxy : Orders x y z (z ∷ x ∷ y ∷ [])
  zyx : Orders x y z (z ∷ y ∷ x ∷ [])

abbrev error_of : Arrival → Option ApiError
error_of (dashboard (failed e)) = some e
error_of (capacity (failed e)) = some e
error_of (usage (failed e)) = some e
error_of _ = none

-- The error that arrives first.
abbrev pub first_error : List Arrival → Option ApiError
first_error [] = none
first_error (a ∷ rest) = elim (error_of a) [ none ↦ first_error rest | some e ↦ some e ]

abbrev pub Three :
    Reply DashboardStats → Reply (List CapacityReport) → Reply UsageReport → List Arrival → Type 0
Three d c u arrivals = Orders (dashboard d) (capacity c) (usage u) arrivals

-- What is on the page when all three have arrived, if none failed.
abbrev pub all_loaded :
    Reply DashboardStats → Reply (List CapacityReport) → Reply UsageReport → Analytics → Analytics
all_loaded (ok d) (ok c) (ok u) s = record {
  stats = some d;
  capacity = c;
  usage = some u;
  loading = false;
  error = text "";
}
all_loaded _ _ _ s = s

-- In whichever order the three answers arrive: if none is an error, the page has all three and no
-- message; otherwise it keeps what it had of all three, and has the message of the error that
-- arrived first. Either way it is no longer loading.
pub load-all_or_nothing :
    (d : Reply DashboardStats) (c : Reply (List CapacityReport)) (u : Reply UsageReport)
    → (arrivals : List Arrival) → Three d c u arrivals
    → (s : Analytics)
    → (load arrivals (begin s)).page ≡ (elim (first_error arrivals) as (λ _. Analytics) [
      | none ↦ all_loaded d c u s
      | some e ↦ load_rejected e (load_begun s)
    ])
unfolding load begin
load-all_or_nothing d c u _ xyz s = ground arith
load-all_or_nothing d c u _ xzy s = ground arith
load-all_or_nothing d c u _ yxz s = ground arith
load-all_or_nothing d c u _ yzx s = ground arith
load-all_or_nothing d c u _ zxy s = ground arith
load-all_or_nothing d c u _ zyx s = ground arith
