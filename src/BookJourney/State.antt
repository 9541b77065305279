-- ===== src/BookJourney/State.antt =====
-- The state of the page. Each run of the effect that checks the route is numbered, and its cleanup
-- cancels it when the next run begins: `run` is the number of the latest, and a check is cancelled
-- exactly if its number is another.
use distributed_traffic_serv.Base.{
  ℕ, String, Bool, true, false, not, ◌&&◌, Option, none, some, List, [], is_some, truthy, string_eq,
  nullish,
}
use distributed_traffic_serv.Api.Reply.{Message, text}
use distributed_traffic_serv.Api.Bookings.{BookingOut, RoutePreviewOut, RoutePreviewPayload}
use distributed_traffic_serv.Session.Roles.{User}
use distributed_traffic_serv.BookJourney.Waypoints.{
  Waypoint, WaypointRegion, ireland, uk, france, waypoint_by_id, LocalTime, default_departure,
}

-- A preview request that has not been answered, with the number of its run.
pub record InFlight : Type 0 where
  pub run : ℕ
  pub payload : RoutePreviewPayload

pub record Book : Type 0 where
  pub selected_route : String
  pub origin_id : String
  pub destination_id : String
  pub datetime : String
  pub plate_number : String
  pub route_preview : Option RoutePreviewOut
  pub checking_route : Bool
  pub preview_error : Message
  pub loading : Bool
  pub result : Option BookingOut
  pub error : Message
  pub run : ℕ
  pub in_flight : List InFlight

abbrev user_plate : Option User → String
user_plate none = ""
user_plate (some user) = nullish (user.plate_number) ""

-- The state before the first effect. `user?.plateNumber || ''` is the plate, or the empty text.
unfoldable pub initial : Option User → LocalTime → Book
initial user soon = record {
  selected_route = "";
  origin_id = "dublin";
  destination_id = "cork";
  datetime = default_departure soon;
  plate_number = user_plate user;
  route_preview = none;
  checking_route = false;
  preview_error = text "";
  loading = false;
  result = none;
  error = text "";
  run = 0;
  in_flight = [];
}

abbrev pub origin : Book → Option Waypoint
origin s = waypoint_by_id s.origin_id

abbrev pub destination : Book → Option Waypoint
destination s = waypoint_by_id s.destination_id

same_region : WaypointRegion → WaypointRegion → Bool
same_region ireland ireland = true
same_region uk uk = true
same_region france france = true
same_region _ _ = false

differ : Option Waypoint → Option Waypoint → Bool
unfolding same_region
differ (some o) (some d) = not (same_region o.region d.region)
differ _ _ = false

-- `isCrossRegion`.
unfoldable pub is_cross_region : Book → Bool
unfolding differ
is_cross_region s = differ (origin s) (destination s)

-- `!!routePreview?.route_available`.
abbrev pub available : Option RoutePreviewOut → Bool
available none = false
available (some p) = p.route_available

-- `canSubmit`.
unfoldable pub can_submit : Book → Bool
can_submit s =
    is_some (origin s)
    && is_some (destination s)
    && truthy s.datetime
    && available s.route_preview
    && not s.checking_route
