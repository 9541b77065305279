-- ===== src/BookJourney/Selection.antt =====
-- The two points: what the handlers keep of them.
use mathlib.Core.Path.{subst₂}
use distributed_traffic_serv.Base.{
  ◌≡◌, ◌≢◌, refl, sym, ◌⊎◌, inl, inr, String, Bool, true, arith, eq_iff, All, All-mem, is_some,
  All-every, All-imp, every, not, ◌&&◌, ◌==◌, string_eq, ne_of_test, ℕ, Bool-cases,
}
use distributed_traffic_serv.Api.Reply.{Reply, ok, failed}
use distributed_traffic_serv.Api.Bookings.{BookingOut, RoutePreviewOut, RoutePreviewPayload}
use distributed_traffic_serv.BookJourney.Waypoints.{
  Waypoint, waypoints, waypoint_by_id, RoutePreset, route_presets,
}
use distributed_traffic_serv.BookJourney.State.{Book, initial}
use distributed_traffic_serv.BookJourney.Select.{handle_route_select, handle_map_point_click}
use distributed_traffic_serv.BookJourney.Check.{
  ToIso, run_effect, after_render, preview_settled, same_inputs,
}
use distributed_traffic_serv.BookJourney.Submit.{handle_submit, booking_settled}
use distributed_traffic_serv.BookJourney.Page.{
  Step, chooses, clicks, sets_time, types_plate, submits, previews, books, Reached, mounts, next,
}

-- The empty text, or the id of a point on the map.
abbrev pub IsChoice : String → Type 0
IsChoice id = (id ≡ "") ⊎ (is_some (waypoint_by_id id) ≡ true)

-- A destination needs an origin, the two are not the same, and both are points on the map.
pub record IsSelection (origin_id destination_id : String) : Type 0 where
  pub origin_known : IsChoice origin_id
  pub destination_known : IsChoice destination_id
  pub ordered : destination_id ≢ "" → origin_id ≢ ""
  pub distinct : destination_id ≢ "" → origin_id ≢ destination_id

abbrev pub Selected : Book → Type 0
Selected s = IsSelection s.origin_id s.destination_id

abbrev Keeps : Book → Book → Type 0
Keeps s t = (t.origin_id ≡ s.origin_id) × (t.destination_id ≡ s.destination_id)

Selected-same : (s t : Book) → Keeps s t → Selected s → Selected t
Selected-same s t (e, f) h = subst₂ IsSelection (sym e) (sym f) h

-- What leaves the two ids alone.
module _ (to_iso : ToIso) where
  run_effect-Keeps : (s : Book) → Keeps s (run_effect to_iso s)
  unfolding run_effect
  run_effect-Keeps s = ground arith

  after_render-Keeps : (s t : Book) → Keeps t (after_render to_iso s t)
  unfolding after_render
  after_render-Keeps s t = elim (Bool-cases (same_inputs s t)) [
    | inl same ↦ rw same (refl, refl)
    | inr changed ↦ rw changed (run_effect-Keeps t)
  ]

  preview_settled-Keeps :
      (k : ℕ) (reply : Reply RoutePreviewOut) (s : Book) → Keeps s (preview_settled k reply s)
  unfolding preview_settled
  preview_settled-Keeps k (ok out) s = ground arith
  preview_settled-Keeps k (failed e) s = ground arith

  handle_submit-Keeps : (s : Book) → Keeps s (handle_submit to_iso s).0
  unfolding handle_submit
  handle_submit-Keeps s = ground arith

  booking_settled-Keeps : (reply : Reply BookingOut) (s : Book) → Keeps s (booking_settled reply s)
  unfolding booking_settled
  booking_settled-Keeps (ok out) s = (refl, refl)
  booking_settled-Keeps (failed e) s = (refl, refl)

-- The tables: each point is found by its id, which is not empty; each preset names two points.
IsNamed : Waypoint → Type 0
IsNamed w = (w.id ≢ "") × IsChoice w.id

is_named : Waypoint → Bool
is_named w = not (w.id == "") && is_some (waypoint_by_id w.id)

names_two : RoutePreset → Bool
names_two r =
    is_some (waypoint_by_id r.origin_id)
    && is_some (waypoint_by_id r.destination_id)
    && not (r.origin_id == "")
    && not (r.origin_id == r.destination_id)

waypoints_named : every is_named waypoints ≡ true
unfolding every is_named waypoints waypoint_by_id
waypoints_named = refl

presets_named : every names_two route_presets ≡ true
unfolding every names_two route_presets waypoint_by_id
presets_named = refl

is_named-IsNamed : (w : Waypoint) → is_named w ≡ true → IsNamed w
unfolding is_named IsNamed
is_named-IsNamed w h = ground (arith, eq_iff w.id "")

names_two-IsSelection :
    (r : RoutePreset) → names_two r ≡ true → IsSelection r.origin_id r.destination_id
unfolding names_two
names_two-IsSelection r h =
    ground (arith, eq_iff r.origin_id "", eq_iff r.origin_id r.destination_id)

waypoints-IsNamed : All IsNamed waypoints
waypoints-IsNamed =
    All-imp is_named-IsNamed waypoints (All-every is_named waypoints waypoints_named)

presets-IsSelection : All (λ r. IsSelection r.origin_id r.destination_id) route_presets
presets-IsSelection =
    All-imp names_two-IsSelection route_presets (All-every names_two route_presets presets_named)

start-IsSelection : IsSelection "dublin" "cork"
unfolding waypoint_by_id
start-IsSelection = record {
  origin_known = inr refl;
  destination_known = inr refl;
  ordered = λ _. ne_of_test "dublin" "" refl;
  distinct = λ _. ne_of_test "dublin" "cork" refl;
}

handle_map_point_click-Selected :
    (s : Book) (w : Waypoint) → IsNamed w → Selected s → Selected (handle_map_point_click w.id s)
unfolding handle_map_point_click IsNamed
handle_map_point_click-Selected s w n h = ground (
  arith,
  eq_iff s.origin_id "",
  eq_iff s.origin_id w.id,
  eq_iff s.destination_id "",
  eq_iff s.destination_id w.id,
)

module _ (to_iso : ToIso) (Vouches : RoutePreviewPayload → RoutePreviewOut → Type 0) where
  Step-Selected : {s t : Book} → Step to_iso Vouches s t → Selected s → Selected t
  unfolding handle_route_select
  Step-Selected {s} (chooses route m) h =
      let t : Book = handle_route_select route s in
      Selected-same t (after_render to_iso s t) (after_render-Keeps to_iso s t)
        (All-mem _ route_presets presets-IsSelection m)
  Step-Selected {s} (clicks w m) h =
      let t : Book = handle_map_point_click w.id s in
      Selected-same t (after_render to_iso s t) (after_render-Keeps to_iso s t)
        (handle_map_point_click-Selected s w (All-mem _ waypoints waypoints-IsNamed m) h)
  Step-Selected {s} (sets_time time) h =
      let t : Book = record s { datetime = time } in
      Selected-same t (after_render to_iso s t) (after_render-Keeps to_iso s t) h
  Step-Selected {s} (types_plate plate) h = h
  Step-Selected {s} (submits enabled) h =
      Selected-same s (handle_submit to_iso s).0 (handle_submit-Keeps to_iso s) h
  Step-Selected {s} (previews g m reply v) h =
      Selected-same s (preview_settled g.run reply s) (preview_settled-Keeps to_iso g.run reply s) h
  Step-Selected {s} (books reply l) h =
      Selected-same s (booking_settled reply s) (booking_settled-Keeps to_iso reply s) h

-- In each state that the page comes to, whatever the handlers that ran and the answers that came,
-- the origin and the destination are points on the map or not chosen, no destination is chosen
-- without an origin, and the two are never the same.
pub Reached-Selected :
    (to_iso : ToIso) (Vouches : RoutePreviewPayload → RoutePreviewOut → Type 0) {s : Book}
    → Reached to_iso Vouches s
    → Selected s
unfolding initial
Reached-Selected to_iso Vouches (mounts user soon) =
    let s : Book = initial user soon in
    Selected-same s (run_effect to_iso s) (run_effect-Keeps to_iso s) start-IsSelection
Reached-Selected to_iso Vouches (next r st) =
    Step-Selected to_iso Vouches st (Reached-Selected to_iso Vouches r)
