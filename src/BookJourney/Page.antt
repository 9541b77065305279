-- ===== src/BookJourney/Page.antt =====
-- What can happen on the page, as a step relation: the handlers that it renders, each followed by
-- the render and its effect, and the answers of the two calls, in any order.
use mathlib.Core.List.{Memᴰ}
use distributed_traffic_serv.Base.{◌≡◌, String, Bool, true, false, not, ◌||◌, to_upper}
use distributed_traffic_serv.Api.Reply.{Reply, ok}
use distributed_traffic_serv.Api.Bookings.{BookingOut, RoutePreviewOut, RoutePreviewPayload}
use distributed_traffic_serv.Session.Roles.{User}
use mathlib.Core.Option.{Option}
use distributed_traffic_serv.BookJourney.Waypoints.{
  Waypoint, waypoints, RoutePreset, route_presets, LocalTime,
}
use distributed_traffic_serv.BookJourney.State.{Book, InFlight, initial, can_submit}
use distributed_traffic_serv.BookJourney.Select.{handle_route_select, handle_map_point_click}
use distributed_traffic_serv.BookJourney.Check.{ToIso, run_effect, after_render, preview_settled}
use distributed_traffic_serv.BookJourney.Submit.{handle_submit, booking_settled}

-- `disabled={loading || !canSubmit}`, of the submit button. A form whose submit button is disabled
-- is not submitted by the Enter key either.
unfoldable pub submit_disabled : Book → Bool
submit_disabled s = s.loading || not (can_submit s)

-- `Vouches` is what an answer to a preview request says of the payload that was sent.
module _ (to_iso : ToIso) (Vouches : RoutePreviewPayload → RoutePreviewOut → Type 0) where
  pub data Step (s : Book) : Book → Type 0 where
    chooses :
        (route : RoutePreset)
        → Memᴰ route route_presets
        → Step s (after_render to_iso s (handle_route_select route s))
    clicks :
        (w : Waypoint)
        → Memᴰ w waypoints
        → Step s (after_render to_iso s (handle_map_point_click w.id s))
    sets_time : (time : String) → Step s (after_render to_iso s (record s { datetime = time }))
    types_plate : (plate : String) → Step s (record s { plate_number = to_upper plate })
    submits : submit_disabled s ≡ false → Step s (handle_submit to_iso s).0
    previews :
        (f : InFlight)
        → Memᴰ f s.in_flight
        → (reply : Reply RoutePreviewOut)
        → ((out : RoutePreviewOut) → reply ≡ ok out → Vouches f.payload out)
        → Step s (preview_settled f.run reply s)
    books : (reply : Reply BookingOut) → s.loading ≡ true → Step s (booking_settled reply s)

  -- The states that the page comes to, from its first render on.
  pub data Reached : Book → Type 0 where
    mounts :
        (user : Option User) (soon : LocalTime) → Reached (run_effect to_iso (initial user soon))
    next : {s t : Book} → Reached s → Step s t → Reached t
