-- ===== src/BookJourney/View/Form.antt =====
-- The form of BookJourney.tsx.
use distributed_traffic_serv.Base.{
  ℕ, ◌+◌, String, ◌<>◌, Bool, false, not, ◌&&◌, ◌||◌, Option, none, some, is_some, List, [], ◌∷◌,
  map, length, take, join, ◌≡◌, arith, ◌==◌, nat_eq, string_eq, if◌then◌else◌,
}
use distributed_traffic_serv.Base.Decimal.{ToFixed}
use distributed_traffic_serv.Base.Numeral.{to_decimal}
use distributed_traffic_serv.Api.Reply.{Message, shown, or_message}
use distributed_traffic_serv.Api.Bookings.{BookingOut, RoutePreviewSegment, RoutePreviewOut}
use distributed_traffic_serv.BookJourney.Waypoints.{
  Waypoint, region_text, RoutePreset, route_presets,
}
use distributed_traffic_serv.BookJourney.State.{
  Book, origin, destination, is_cross_region, can_submit,
}
use distributed_traffic_serv.BookJourney.Page.{submit_disabled}
use distributed_traffic_serv.BookJourney.View.Card.{Card, card}
use distributed_traffic_serv.BookJourney.View.Map.{Line, map_lines, Marker, markers}

-- The button of a preset, which calls `handleRouteSelect`.
pub record PresetButton : Type 0 where
  pub route : RoutePreset
  pub selected : Bool

-- The box "Route Check".
pub data RouteCheck : Type 0 where
  in_progress : String → RouteCheck
  found : (summary chain : String) (segments : List String) → RouteCheck
  refused : Message → RouteCheck

pub record Form : Type 0 where
  pub presets : List PresetButton
  pub cross_region_notice : Bool
  pub lines : List Line
  pub markers : List Marker
  pub origin_text : String
  pub destination_text : String
  pub legend : Bool
  pub datetime : String
  pub route_check : RouteCheck
  pub plate_number : String
  pub error : Option Message
  pub button_disabled : Bool
  pub button_text : String

unfoldable pub preset_button : Book → RoutePreset → PresetButton
preset_button s route = record { route = route; selected = s.selected_route == route.id }

unfoldable pub place_text : Option Waypoint → String
place_text none = "Not selected"
place_text (some w) = w.label <> (" (" <> (region_text w.region <> ")"))

unfoldable pub legend_shown : Option RoutePreviewOut → Bool
legend_shown none = false
legend_shown (some p) = p.route_available && not (length p.segments == 0)

module _ (to_fixed : ToFixed) where
  segment_texts : ℕ → List RoutePreviewSegment → List String
  segment_texts idx [] = []
  segment_texts idx (s ∷ rest) =
      (to_decimal (idx + 1)
        <> (". "
            <> (s.segment_name
                <> (" (" <> (s.region <> (") • " <> (to_fixed s.distance_km <> " km")))))))
      ∷ segment_texts (idx + 1) rest

  minutes : Option ℕ → String
  minutes none = ""
  minutes (some n) = to_decimal n

  summary : RoutePreviewOut → String
  unfolding minutes
  summary p =
      "Route available • "
      <> (to_decimal (length p.segments)
          <> (" segment(s) • " <> (minutes p.estimated_duration_minutes <> " min")))

  check_found : Book → Option RoutePreviewOut → RouteCheck
  unfolding segment_texts summary
  check_found s none =
      refused (or_message (some s.preview_error) "Select two points to validate route.")
  check_found s (some p) =
      if p.route_available
      then found (summary p) (join " → " p.region_chain) (segment_texts 0 (take 6 p.segments))
      else refused (or_message (some s.preview_error) "Select two points to validate route.")

  unfoldable pub route_check : Book → RouteCheck
  unfolding check_found
  route_check s =
      if s.checking_route
      then in_progress "Checking route availability…"
      else check_found s s.route_preview

-- `routePreview?.route_available === false`.
abbrev refused_route : Option RoutePreviewOut → Bool
refused_route none = false
refused_route (some p) = not p.route_available

unfoldable pub button_text : Book → String
button_text s =
    if s.loading
    then (if is_cross_region s then "Submitting via SAGA…" else "Submitting…")
    else if not (is_some (origin s)) || not (is_some (destination s))
    then "Select origin + destination"
    else if refused_route s.route_preview
    then "Route unavailable"
    else if s.checking_route
    then "Checking route…"
    else "Request booking →"

abbrev shown_error : Message → Option Message
shown_error m = if shown m then some m else none

unfoldable pub form : ToFixed → Book → Form
unfolding preset_button place_text legend_shown
form to_fixed s = record {
  presets = map (preset_button s) route_presets;
  cross_region_notice = is_cross_region s;
  lines = map_lines s;
  markers = markers s;
  origin_text = place_text (origin s);
  destination_text = place_text (destination s);
  legend = legend_shown s.route_preview;
  datetime = s.datetime;
  route_check = route_check to_fixed s;
  plate_number = s.plate_number;
  error = shown_error s.error;
  button_disabled = submit_disabled s;
  button_text = button_text s;
}

pub data Screen : Type 0 where
  booked : Card → Screen
  booking : Form → Screen

screen_of : ToFixed → Book → Option BookingOut → Screen
screen_of to_fixed s none = booking (form to_fixed s)
screen_of to_fixed s (some result) = booked (card result)

-- The whole page.
unfoldable pub screen : ToFixed → Book → Screen
unfolding screen_of
screen to_fixed s = screen_of to_fixed s s.result

-- A submit button that is enabled says that it requests a booking: it never says that a point is
-- missing, that the route is unavailable, or that something is in progress.
pub button_text-enabled :
    (s : Book) → submit_disabled s ≡ false → button_text s ≡ "Request booking →"
unfolding button_text submit_disabled can_submit
button_text-enabled s h = ground arith
