-- ===== src/BookJourney/Hanging.antt =====
-- A check that is cut short by taking the choice back: `checkRoute` returns early without
-- `setCheckingRoute(false)`, and the cancelled run no longer says it.
use distributed_traffic_serv.Base.{
  ℕ, suc, ◌≤◌, ◌≡◌, ◌≢◌, refl, true, false, ◌==◌, nat_eq, string_eq, none, List, [], ◌∷◌, arith,
  All, eq_refl, eqb_iff, truthy, truthy_of_ne,
}
use distributed_traffic_serv.Api.Reply.{text, Reply, ok, failed}
use distributed_traffic_serv.Api.Bookings.{RoutePreviewOut}
use distributed_traffic_serv.BookJourney.Waypoints.{waypoint_by_id}
use distributed_traffic_serv.BookJourney.State.{Book}
use distributed_traffic_serv.BookJourney.Select.{handle_map_point_click}
use distributed_traffic_serv.BookJourney.Check.{ToIso, run_effect, after_render, preview_settled}

-- Answers that come in one after the other, each with the number of its run.
unfoldable pub deliver : List (ℕ × Reply RoutePreviewOut) → Book → Book
deliver [] s = s
deliver ((k, reply) ∷ rest) s = deliver rest (preview_settled k reply s)

-- No answer to an earlier run is awaited, and yet a check is shown to be in progress.
abbrev pub Hangs : Book → Type 0
Hangs s = (s.checking_route ≡ true) × (s.route_preview ≡ none) × (s.origin_id ≡ "")

preview_settled-Hangs :
    (k run : ℕ) (reply : Reply RoutePreviewOut) (s : Book)
    → s.run ≡ suc run
    → k ≤ run
    → Hangs s
    → Hangs (preview_settled k reply s) × ((preview_settled k reply s).run ≡ suc run)
unfolding preview_settled
preview_settled-Hangs k run (ok out) s e le h = ground (arith, eqb_iff k s.run)
preview_settled-Hangs k run (failed x) s e le h = ground (arith, eqb_iff k s.run)

deliver-Hangs :
    (run : ℕ) (replies : List (ℕ × Reply RoutePreviewOut)) (s : Book)
    → s.run ≡ suc run
    → All (λ r. r.0 ≤ run) replies
    → Hangs s
    → Hangs (deliver replies s)
unfolding deliver
deliver-Hangs run [] s e a h = h
deliver-Hangs run ((k, reply) ∷ rest) s e (le, a) h =
    let (h', e') = preview_settled-Hangs k run reply s e le h in
    deliver-Hangs run rest (preview_settled k reply s) e' a h'

-- A click on the origin clears both points.
abbrev cleared : Book → Book
cleared s = record s {
  selected_route = "";
  origin_id = "";
  destination_id = "";
  result = none;
  error = text "";
}

click-cleared :
    (s : Book) → truthy s.origin_id ≡ true → handle_map_point_click s.origin_id s ≡ cleared s
unfolding handle_map_point_click
click-cleared s t = rw t (rw (eq_refl s.origin_id))

render-cleared :
    (to_iso : ToIso) (s : Book)
    → (s.origin_id == "") ≡ false
    → after_render to_iso s (cleared s) ≡ run_effect to_iso (cleared s)
unfolding after_render
render-cleared to_iso s e = rw e

clear-Hangs :
    (to_iso : ToIso) (s : Book)
    → s.checking_route ≡ true
    → s.origin_id ≢ ""
    → let t = after_render to_iso s (handle_map_point_click s.origin_id s) in
      Hangs t × (t.run ≡ suc s.run)
unfolding run_effect waypoint_by_id
clear-Hangs to_iso s checking chosen =
    let set : truthy s.origin_id ≡ true = truthy_of_ne s.origin_id chosen in
    rw (click-cleared s set)
      (rw (render-cleared to_iso s (ground arith)) ((checking, refl, refl), refl))

-- If the origin is clicked, and so cleared, while a check is in progress, then the page shows a
-- check in progress although none is, whatever the answers to all the requests sent so far, in
-- whatever order they come.
pub cleared_check-Hangs :
    (to_iso : ToIso) (s : Book) (replies : List (ℕ × Reply RoutePreviewOut))
    → s.checking_route ≡ true
    → s.origin_id ≢ ""
    → All (λ r. r.0 ≤ s.run) replies
    → Hangs (deliver replies (after_render to_iso s (handle_map_point_click s.origin_id s)))
cleared_check-Hangs to_iso s replies checking chosen a =
    let (h, e) = clear-Hangs to_iso s checking chosen in deliver-Hangs s.run replies _ e a h
