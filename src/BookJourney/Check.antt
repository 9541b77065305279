-- ===== src/BookJourney/Check.antt =====
-- The effect on `[origin, destination, datetime]`: `checkRoute`, its cleanup, and what follows the
-- answer to its request.
use distributed_traffic_serv.Base.{
  ℕ, suc, String, Bool, true, false, not, ◌&&◌, Option, none, some, ◌∷◌, truthy, ◌==◌, nat_eq,
  string_eq, if◌then◌else◌, filter, nullish,
}
use distributed_traffic_serv.Api.Reply.{
  Message, text, ApiError, Reply, ok, failed, detail_or, range_error,
}
use distributed_traffic_serv.Api.Bookings.{RoutePreviewPayload, RoutePreviewOut}
use distributed_traffic_serv.BookJourney.Waypoints.{Waypoint}
use distributed_traffic_serv.BookJourney.State.{Book, origin, destination}

-- `new Date(text).toISOString()` in the time zone of the browser; `none` where it throws.
abbrev pub ToIso : Type 0
ToIso = String → Option String

abbrev pub no_path : String
no_path = "No valid path found between origin and destination."

abbrev pub preview_payload : Waypoint → Waypoint → String → RoutePreviewPayload
preview_payload o d departure = record {
  origin_lat = o.lat;
  origin_lng = o.lng;
  destination_lat = d.lat;
  destination_lng = d.lng;
  departure_time = departure;
}

-- `setPreviewError` at an answer: nothing happens if the route is available.
abbrev note_reason : RoutePreviewOut → Message → Message
note_reason out old =
    if out.route_available
    then old
    else let reason : String = nullish out.reason "" in
      if truthy reason then text reason else text no_path

-- The `catch` and the `finally` of a check that is not cancelled.
unfoldable pub preview_failed : ApiError → Book → Book
unfolding detail_or
preview_failed e s = record s {
  route_preview = none;
  preview_error = detail_or e "Could not validate route right now.";
  checking_route = false;
}

unfoldable pub preview_answered : RoutePreviewOut → Book → Book
preview_answered out s = record s {
  route_preview = some out;
  preview_error = note_reason out s.preview_error;
  checking_route = false;
}

-- The request, or the error of a date that is none.
unfoldable pub send_preview : Waypoint → Waypoint → Option String → Book → Book
unfolding preview_failed
send_preview o d none s = preview_failed range_error s
send_preview o d (some departure) s = record s {
  in_flight = record { run = s.run; payload = preview_payload o d departure } ∷ s.in_flight;
}

unfoldable pub check : ToIso → Option Waypoint → Option Waypoint → Book → Book
unfolding send_preview
check to_iso (some o) (some d) s =
    if truthy s.datetime
    then send_preview o d (to_iso s.datetime)
        (record s { checking_route = true; preview_error = text "" })
    else record s { route_preview = none; preview_error = text "" }
check to_iso _ _ s = record s { route_preview = none; preview_error = text "" }

-- One run of the effect; the cleanup of the one before is in the new number.
unfoldable pub run_effect : ToIso → Book → Book
unfolding check
run_effect to_iso s =
    let t : Book = record s { run = suc s.run } in check to_iso (origin t) (destination t) t

abbrev pub same_inputs : Book → Book → Bool
same_inputs s t =
    s.origin_id == t.origin_id && s.destination_id == t.destination_id && s.datetime == t.datetime

-- What React does behind a handler that made `t` of `s`: the effect runs if an input has changed.
unfoldable pub after_render : ToIso → Book → Book → Book
unfolding run_effect
after_render to_iso s t = if same_inputs s t then t else run_effect to_iso t

-- The request of the run `k` is no longer under way.
abbrev pub answered : ℕ → Book → Book
answered k s = record s { in_flight = filter (λ f. not (f.run == k)) s.in_flight }

-- The answer to the request of the run `k`. A cancelled check returns without a word.
unfoldable pub preview_settled : ℕ → Reply RoutePreviewOut → Book → Book
unfolding filter preview_failed preview_answered
preview_settled k reply s =
    let t : Book = answered k s in
    if k == s.run
    then elim reply [ ok out ↦ preview_answered out t | failed e ↦ preview_failed e t ]
    else t
