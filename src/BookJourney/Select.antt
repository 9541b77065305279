-- ===== src/BookJourney/Select.antt =====
-- The handlers that choose the points: `handleRouteSelect` and `handleMapPointClick`.
use distributed_traffic_serv.Base.{String, none, truthy, not, ◌==◌, string_eq, if◌then◌else◌}
use distributed_traffic_serv.Api.Reply.{text}
use distributed_traffic_serv.BookJourney.Waypoints.{RoutePreset}
use distributed_traffic_serv.BookJourney.State.{Book}

unfoldable pub handle_route_select : RoutePreset → Book → Book
handle_route_select route s = record s {
  selected_route = route.id;
  origin_id = route.origin_id;
  destination_id = route.destination_id;
  result = none;
  error = text "";
}

-- The tests of `handleMapPointClick`, in their order.
choose : String → Book → Book
choose id s =
    if not (truthy s.origin_id)
    then record s { origin_id = id }
    else if s.origin_id == id
    then record s { origin_id = ""; destination_id = "" }
    else if not (truthy s.destination_id)
    then record s { destination_id = id }
    else if s.destination_id == id
    then record s { destination_id = "" }
    else record s { destination_id = id }

unfoldable pub handle_map_point_click : String → Book → Book
unfolding choose
handle_map_point_click id s =
    choose id (record s { selected_route = ""; result = none; error = text "" })
