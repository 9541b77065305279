-- ===== src/BookJourney/Waypoints.antt =====
-- The tables of BookJourney.tsx, and the departure time that the form starts with.
use distributed_traffic_serv.Base.{
  ℕ, ◌+◌, String, ◌<>◌, Option, none, some, List, [], ◌∷◌, ◌==◌, string_eq, ltb, if◌then◌else◌,
}
use distributed_traffic_serv.Base.Decimal.{Decimal, dec, minus}
use distributed_traffic_serv.Base.Numeral.{to_decimal}

pub data WaypointRegion : Type 0 where
  ireland uk france : WaypointRegion

-- The text that stands for a region.
abbrev pub region_text : WaypointRegion → String
region_text ireland = "EU_WEST_IRELAND"
region_text uk = "EU_WEST_UK"
region_text france = "EU_WEST_FRANCE"

pub record Waypoint : Type 0 where
  pub id : String
  pub label : String
  pub region : WaypointRegion
  pub lat : Decimal
  pub lng : Decimal

abbrev waypoint : String → String → WaypointRegion → Decimal → Decimal → Waypoint
waypoint id label region lat lng = record {
  id = id;
  label = label;
  region = region;
  lat = lat;
  lng = lng;
}

-- `WAYPOINTS`.
unfoldable pub waypoints : List Waypoint
waypoints =
    waypoint "dublin" "Dublin" ireland (dec 533498 4) (minus 62603 4)
    ∷ waypoint "cork" "Cork" ireland (dec 518985 4) (minus 84756 4)
    ∷ waypoint "galway" "Galway" ireland (dec 532707 4) (minus 90568 4)
    ∷ waypoint "limerick" "Limerick" ireland (dec 526638 4) (minus 86267 4)
    ∷ waypoint "belfast" "Belfast" uk (dec 545973 4) (minus 59301 4)
    ∷ waypoint "holyhead" "Holyhead" uk (dec 533083 4) (minus 46325 4)
    ∷ waypoint "london" "London" uk (dec 515074 4) (minus 1278 4)
    ∷ waypoint "birmingham" "Birmingham" uk (dec 524862 4) (minus 18904 4)
    ∷ waypoint "manchester" "Manchester" uk (dec 534808 4) (minus 22426 4)
    ∷ waypoint "paris" "Paris" france (dec 488566 4) (dec 23522 4)
    ∷ waypoint "lyon" "Lyon" france (dec 457640 4) (dec 48357 4)
    ∷ waypoint "marseille" "Marseille" france (dec 432965 4) (dec 53698 4)
    ∷ waypoint "bordeaux" "Bordeaux" france (dec 448378 4) (minus 5792 4)
    ∷ waypoint "calais" "Calais" france (dec 509513 4) (dec 18587 4)
    ∷ []

find_waypoint : String → List Waypoint → Option Waypoint
find_waypoint id [] = none
find_waypoint id (w ∷ ws) = if w.id == id then some w else find_waypoint id ws

-- `id ? WAYPOINT_BY_ID[id] : null`. No waypoint has the empty id.
unfoldable pub waypoint_by_id : String → Option Waypoint
unfolding find_waypoint waypoints
waypoint_by_id id = if id == "" then none else find_waypoint id waypoints

pub record RoutePreset : Type 0 where
  pub id : String
  pub label : String
  pub flag : String
  pub note : String
  pub origin_id : String
  pub destination_id : String

-- `ROUTE_PRESETS`.
unfoldable pub route_presets : List RoutePreset
route_presets =
    record {
      id = "ie-dublin-cork";
      label = "Dublin → Cork";
      flag = "🇮🇪";
      note = "Single region";
      origin_id = "dublin";
      destination_id = "cork";
    }
    ∷ record {
      id = "ie-dublin-birmingham";
      label = "Dublin → Birmingham";
      flag = "🇮🇪🇬🇧";
      note = "Cross-region: IE→GB";
      origin_id = "dublin";
      destination_id = "birmingham";
    }
    ∷ record {
      id = "gb-london-manchester";
      label = "London → Manchester";
      flag = "🇬🇧";
      note = "Single region";
      origin_id = "london";
      destination_id = "manchester";
    }
    ∷ record {
      id = "fr-paris-lyon";
      label = "Paris → Lyon";
      flag = "🇫🇷";
      note = "Single region";
      origin_id = "paris";
      destination_id = "lyon";
    }
    ∷ record {
      id = "fr-paris-marseille";
      label = "Paris → Marseille";
      flag = "🇫🇷";
      note = "Single region";
      origin_id = "paris";
      destination_id = "marseille";
    }
    ∷ []

-- The fields of a `Date` in the time zone of the browser; `month` counts from 0.
pub record LocalTime : Type 0 where
  pub year : ℕ
  pub month : ℕ
  pub day : ℕ
  pub hours : ℕ

-- `String(n).padStart(2, '0')`.
pad : ℕ → String
unfolding to_decimal
pad n = if ltb n 10 then "0" <> to_decimal n else to_decimal n

-- `defaultDeparture`, at the local time an hour from now.
unfoldable pub default_departure : LocalTime → String
unfolding pad
default_departure d =
    to_decimal d.year
    <> ("-" <> (pad (d.month + 1) <> ("-" <> (pad d.day <> ("T" <> (pad d.hours <> ":00"))))))
