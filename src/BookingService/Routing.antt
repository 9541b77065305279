-- ===== src/BookingService/Routing.antt =====
-- routing.py: what `resolve_route` makes of the path that `_shortest_path` has found. Distances are
-- floating-point numbers, which are not modelled: an edge has the minutes that `int(round(…))` makes
-- of its distance.
use distributed_traffic_serv.Base.{ℕ, ◌+◌, ◌*◌, leb, String, Bool, List, [], ◌∷◌, if◌then◌else◌}
use distributed_traffic_serv.BookingService.Store.{hour, floor_hour}
use distributed_traffic_serv.BookingService.Saga.{RouteSegment}
use distributed_traffic_serv.BookingService.Service.{Route, found, not_found, empty}

pub record SegmentEdge : Type 0 where
  pub segment_id : String
  pub region : String
  pub rounded_minutes : ℕ

abbrev pub minute : ℕ
minute = 60000000

-- `_to_minutes`.
abbrev pub to_minutes : ℕ → ℕ
to_minutes rounded = if leb 5 rounded then rounded else 5

-- The loop over the path, from the time `trip_cursor`.
unfoldable pub timed : List SegmentEdge → ℕ → List RouteSegment
unfolding floor_hour
timed [] trip_cursor = []
timed (edge ∷ rest) trip_cursor =
    record {
      segment_id = edge.segment_id;
      region = edge.region;
      slot_start = floor_hour trip_cursor;
      slot_end = floor_hour trip_cursor + hour;
      duration_minutes = to_minutes edge.rounded_minutes;
    }
    ∷ timed rest (trip_cursor + to_minutes edge.rounded_minutes * minute)

unfoldable pub driving_minutes : List SegmentEdge → ℕ
driving_minutes [] = 0
driving_minutes (edge ∷ rest) = to_minutes edge.rounded_minutes + driving_minutes rest

-- `max(1, driving_minutes + approach_minutes)`.
abbrev pub total_minutes : ℕ → ℕ
total_minutes sum = if leb 1 sum then sum else 1

-- `if not path`.
unfoldable pub route_over : List SegmentEdge → ℕ → ℕ → Route
unfolding timed driving_minutes
route_over [] approach_minutes departure_time = not_found
route_over (edge ∷ rest) approach_minutes departure_time =
    found (timed (edge ∷ rest) departure_time)
      (total_minutes (driving_minutes (edge ∷ rest) + approach_minutes))

-- `resolve_route`, of whether there are edges, the path and the minutes of the approaches.
unfoldable pub resolve_route : Bool → List SegmentEdge → ℕ → ℕ → Route
unfolding route_over
resolve_route has_edges path approach_minutes departure_time =
    if has_edges then route_over path approach_minutes departure_time else empty
