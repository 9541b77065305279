-- ===== src/BookingService/Timetable.antt =====
-- The slots of a route.
use mathlib.Core.List.{cons≢nil}
use distributed_traffic_serv.Base.{
  ℕ, ◌+◌, ◌*◌, ◌≤◌, ◌<◌, ◌≡◌, ◌≢◌, refl, Bool, true, false, List, [], ◌∷◌, All, arith,
}
use distributed_traffic_serv.BookingService.Store.{hour, floor_hour}
use distributed_traffic_serv.BookingService.Saga.{RouteSegment}
use distributed_traffic_serv.BookingService.Service.{Route, found, not_found, empty}
use distributed_traffic_serv.BookingService.Routing.{
  SegmentEdge, minute, to_minutes, timed, driving_minutes, route_over, resolve_route,
}
use distributed_traffic_serv.BookingService.Steps.{IsAligned}

-- The slot of a segment is the hour on the clock in which the driver is at its begin, and the
-- segment takes five minutes or more.
pub record IsReached (at : ℕ) (seg : RouteSegment) : Type 0 where
  pub aligned : IsAligned seg
  pub begun : seg.slot_start ≤ at
  pub not_over : at < seg.slot_end
  pub an_hour : seg.slot_end ≡ seg.slot_start + hour
  pub driven : 5 ≤ seg.duration_minutes

-- Each segment is reached in its slot, when those before it are driven.
abbrev pub Timetable : ℕ → List RouteSegment → Type 0
Timetable at [] = Unit
Timetable at (seg ∷ rest) = IsReached at seg × Timetable (at + seg.duration_minutes * minute) rest

unfoldable pub driven_minutes : List RouteSegment → ℕ
driven_minutes [] = 0
driven_minutes (seg ∷ rest) = seg.duration_minutes + driven_minutes rest

floor_hour-aligned : (t : ℕ) → floor_hour (floor_hour t) ≡ floor_hour t
unfolding floor_hour
floor_hour-aligned t = omega arith

floor_hour-within : (t : ℕ) → (floor_hour t ≤ t) × (t < floor_hour t + hour)
unfolding floor_hour
floor_hour-within t = (omega arith, omega arith)

timed-Timetable : (path : List SegmentEdge) (at : ℕ) → Timetable at (timed path at)
unfolding timed
timed-Timetable [] at = tt
timed-Timetable (edge ∷ rest) at = (
  record {
    aligned = floor_hour-aligned at;
    begun = (floor_hour-within at).0;
    not_over = (floor_hour-within at).1;
    an_hour = refl;
    driven = ground arith;
  },
  timed-Timetable rest (at + to_minutes edge.rounded_minutes * minute),
)

driven_minutes-timed :
    (path : List SegmentEdge) (at : ℕ) → driven_minutes (timed path at) ≡ driving_minutes path
unfolding driven_minutes timed driving_minutes
driven_minutes-timed [] at = refl
driven_minutes-timed (edge ∷ rest) at =
    omega (arith, driven_minutes-timed rest (at + to_minutes edge.rounded_minutes * minute))

-- What a route that is found promises: it is no empty one, its segments are reached in their slots,
-- and the minutes of the whole journey are those of its segments at least.
abbrev pub IsTimely : ℕ → Route → Type 0
IsTimely departure (found segments minutes) =
    (segments ≢ []) × Timetable departure segments × (driven_minutes segments ≤ minutes)
IsTimely departure _ = Unit

route_over-IsTimely :
    (path : List SegmentEdge) (approach departure : ℕ)
    → IsTimely departure (route_over path approach departure)
unfolding route_over
route_over-IsTimely [] approach departure = tt
route_over-IsTimely (edge ∷ rest) approach departure = (
  λ none_. cons≢nil none_,
  timed-Timetable (edge ∷ rest) departure,
  ground (arith, driven_minutes-timed (edge ∷ rest) departure),
)

-- Whatever path is found: a route has a segment, each of its slots is the hour on the clock in which
-- the driver reaches the segment when those before it take their minutes, and the journey is told to
-- take the minutes of all segments at least.
pub resolve_route-IsTimely :
    (has_edges : Bool) (path : List SegmentEdge) (approach departure : ℕ)
    → IsTimely departure (resolve_route has_edges path approach departure)
unfolding resolve_route
resolve_route-IsTimely true path approach departure = route_over-IsTimely path approach departure
resolve_route-IsTimely false path approach departure = tt

Timetable-IsAligned :
    (at : ℕ) (segments : List RouteSegment) → Timetable at segments → All IsAligned segments
Timetable-IsAligned at [] h = tt
Timetable-IsAligned at (seg ∷ rest) (one, h) =
    (one.aligned, Timetable-IsAligned (at + seg.duration_minutes * minute) rest h)

-- The slots of a route begin on the hour.
abbrev pub AlignedRoute : Route → Type 0
AlignedRoute (found segments minutes) = All IsAligned segments
AlignedRoute _ = Unit

IsTimely-AlignedRoute :
    (departure : ℕ) (route : Route) → IsTimely departure route → AlignedRoute route
IsTimely-AlignedRoute departure (found segments minutes) (some_, table, total) =
    Timetable-IsAligned departure segments table
IsTimely-AlignedRoute departure not_found h = tt
IsTimely-AlignedRoute departure empty h = tt

pub resolve_route-AlignedRoute :
    (has_edges : Bool) (path : List SegmentEdge) (approach departure : ℕ)
    → AlignedRoute (resolve_route has_edges path approach departure)
resolve_route-AlignedRoute has_edges path approach departure =
    IsTimely-AlignedRoute departure (resolve_route has_edges path approach departure)
      (resolve_route-IsTimely has_edges path approach departure)
