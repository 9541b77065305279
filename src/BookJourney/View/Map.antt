-- ===== src/BookJourney/View/Map.antt =====
-- The lines and the markers on the map. A line's ends are pairs of coordinates, of which the second
-- is handed on without a test.
use distributed_traffic_serv.Base.{
  ℕ, String, Bool, ◌||◌, Option, none, some, List, [], ◌∷◌, ◌++◌, map, last?, ◌==◌, string_eq,
  if◌then◌else◌,
}
use distributed_traffic_serv.Base.Decimal.{Decimal, dec}
use distributed_traffic_serv.Api.Bookings.{RoutePreviewSegment, RoutePreviewOut}
use distributed_traffic_serv.BookJourney.Waypoints.{Waypoint, waypoints, region_text}
use distributed_traffic_serv.BookJourney.State.{Book, origin, destination}

pub record Point : Type 0 where
  pub lat : Decimal
  pub lng : Option Decimal

pub record Line : Type 0 where
  pub ends : Point × Point
  pub colour : String
  pub dashes : Option String
  pub weight : ℕ
  pub opacity : Option Decimal

abbrev pub at_waypoint : Waypoint → Point
at_waypoint w = record { lat = w.lat; lng = some w.lng }

abbrev approach : Point → Point → Line
approach from to = record {
  ends = (from, to);
  colour = "#888";
  dashes = some "6 6";
  weight = 2;
  opacity = some (dec 5 1);
}

-- `regionColor`.
unfoldable pub region_colour : String → String
region_colour region =
    if region == "EU_WEST_IRELAND"
    then "#00c26f"
    else if region == "EU_WEST_UK"
    then "#2563eb"
    else if region == "EU_WEST_FRANCE"
    then "#f59e0b"
    else "#888"

-- A segment is drawn if both of its latitudes are known.
segment_line : RoutePreviewSegment → List Line
unfolding region_colour
segment_line seg = elim (seg.start_lat) [
  | none ↦ []
  | some a ↦ elim (seg.end_lat) [
    | none ↦ []
    | some b ↦
        record {
          ends = (record { lat = a; lng = seg.start_lng }, record { lat = b; lng = seg.end_lng });
          colour = region_colour seg.region;
          dashes = none;
          weight = 4;
          opacity = some (dec 85 2);
        }
        ∷ []
  ]
]

segment_lines : List RoutePreviewSegment → List Line
unfolding segment_line
segment_lines [] = []
segment_lines (seg ∷ segs) = segment_line seg ++ segment_lines segs

-- From the origin to the start of the first segment.
first_approach : Waypoint → RoutePreviewSegment → List Line
first_approach o seg = elim (seg.start_lat) [
  | none ↦ []
  | some a ↦ approach (at_waypoint o) (record { lat = a; lng = seg.start_lng }) ∷ []
]

-- From the end of the last segment to the destination.
last_approach : Waypoint → Option RoutePreviewSegment → List Line
last_approach d none = []
last_approach d (some seg) = elim (seg.end_lat) [
  | none ↦ []
  | some b ↦ approach (record { lat = b; lng = seg.end_lng }) (at_waypoint d) ∷ []
]

abbrev straight : Waypoint → Waypoint → List Line
straight o d =
    record {
      ends = (at_waypoint o, at_waypoint d);
      colour = "#1a1aff";
      dashes = some "8 8";
      weight = 3;
      opacity = none;
    }
    ∷ []

-- The lines of a preview: the approaches and the segments if there are any.
route_lines : Waypoint → Waypoint → Option RoutePreviewOut → List Line
unfolding segment_lines first_approach last_approach
route_lines o d none = straight o d
route_lines o d (some p) = elim (p.segments) [
  | [] ↦ straight o d
  | seg ∷ segs ↦
      if p.route_available
      then first_approach o seg
        ++ (segment_lines (seg ∷ segs) ++ last_approach d (last? (seg ∷ segs)))
      else straight o d
]

lines_between : Option Waypoint → Option Waypoint → Option RoutePreviewOut → List Line
unfolding route_lines
lines_between (some o) (some d) preview = route_lines o d preview
lines_between _ _ preview = []

unfoldable pub map_lines : Book → List Line
unfolding lines_between
map_lines s = lines_between (origin s) (destination s) s.route_preview

-- A marker; a click on it calls `handleMapPointClick(id)`.
pub record Marker : Type 0 where
  pub id : String
  pub centre : Point
  pub radius : ℕ
  pub fill : String
  pub label : String
  pub region : String

unfoldable pub marker : Book → Waypoint → Marker
marker s wp =
    let is_origin : Bool = wp.id == s.origin_id in
    let is_destination : Bool = wp.id == s.destination_id in
    record {
      id = wp.id;
      centre = at_waypoint wp;
      radius = if is_origin || is_destination then 9 else 7;
      fill = if is_origin then "#00c26f" else if is_destination then "#f03e3e" else "#2563eb";
      label = wp.label;
      region = region_text wp.region;
    }

unfoldable pub markers : Book → List Marker
unfolding marker
markers s = map (marker s) waypoints
