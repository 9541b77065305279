-- ===== src/BookingService/Sample.antt =====
-- Two nodes, a route over both, and a job, for the tests.
use distributed_traffic_serv.Base.{String, true, some, List, [], ◌∷◌}
use distributed_traffic_serv.Api.Bookings.{confirmed}
use distributed_traffic_serv.BookingService.Store.{
  region_ireland, region_uk, RoadSegment, Reservation, Db, hour,
}
use distributed_traffic_serv.BookingService.Peer.{acquired}
use distributed_traffic_serv.BookingService.Saga.{RouteSegment, Config, answered, Env, Job}

abbrev pub leeds : RouteSegment
leeds = record {
  segment_id = "m62";
  region = "EU_WEST_UK";
  slot_start = 0;
  slot_end = hour;
  duration_minutes = 40;
}

abbrev pub dublin : RouteSegment
dublin = record {
  segment_id = "m50";
  region = "EU_WEST_IRELAND";
  slot_start = hour;
  slot_end = 7200000000;
  duration_minutes = 50;
}

abbrev pub route : List RouteSegment
route = leeds ∷ dublin ∷ []

abbrev pub uk_node : Config
uk_node = record { local_regions = "EU_WEST_UK" ∷ "EU_WEST_FRANCE" ∷ []; has_peer = true }

abbrev pub all_well : Env
all_well = record {
  lock = λ seg. acquired;
  link = λ seg. answered;
  peer_lock = λ seg. acquired;
  commits = true;
  takes_confirmed = true;
  releases = λ seg. true;
  release_link = answered;
  takes_failed = true;
  settles = true;
}

abbrev pub job : Job
job = record {
  booking_id = "b1";
  driver_id = "ann";
  plate_number = some "AB12";
  departure_time = 0;
}

abbrev pub uk_roads : List RoadSegment
uk_roads = record { schema = region_uk; id = "m62"; max_capacity_per_slot = 2 } ∷ []

abbrev pub irish_roads : List RoadSegment
irish_roads = record { schema = region_ireland; id = "m50"; max_capacity_per_slot = 2 } ∷ []

abbrev pub uk_db : Db
uk_db = record {
  road_segments = uk_roads;
  reservations = [];
  segment_reservations = [];
  bookings = [];
}

abbrev pub irish_db : Db
irish_db = record uk_db { road_segments = irish_roads }

abbrev pub irish_row : String → Reservation
irish_row id = record {
  schema = region_ireland;
  booking_id = id;
  segment_id = "m50";
  driver_id = "bob";
  slot_start = hour;
  slot_end = 7200000000;
  status = confirmed;
}

-- The peer when both places of the segment are taken.
abbrev pub full_db : Db
full_db = record irish_db { reservations = irish_row "b8" ∷ irish_row "b9" ∷ [] }
