-- ===== src/AnalyticsService/Tests.antt =====
-- A booking over two segments, and the load of one of them.
use mathlib.Core.List.{Memᴰ}
use distributed_traffic_serv.Base.{
  arith, ◌+◌, ◌*◌, ◌/◌, ◌≤◌, ◌≡◌, refl, true, false, none, some, List, [], ◌∷◌, length, count, All,
}
use distributed_traffic_serv.Base.Decimal.{dec}
use distributed_traffic_serv.Api.Bookings.{confirmed}
use distributed_traffic_serv.BookingService.Store.{
  region_ireland, schema_of, schema_beq, Reservation, Db, floor_hour,
}
use distributed_traffic_serv.BookingService.Capacity.{Capacity, check_capacity}
use distributed_traffic_serv.BookingService.Peer.{acquired}
use distributed_traffic_serv.BookingService.Saga.{
  Event, RouteSegment, Config, Env, Job, answered, confirmed_event,
}
use distributed_traffic_serv.Delivery.{deliver}
use distributed_traffic_serv.Delivery.Repeats.{deliver-repeats}
use distributed_traffic_serv.AnalyticsService.Events.{BookingEvent, rows_of, handle_event}
use distributed_traffic_serv.AnalyticsService.Reports.{Percent, tally_of, dashboard}
use distributed_traffic_serv.AnalyticsService.Load.{CapacityReport, joined, groups, capacity_report}
use distributed_traffic_serv.AnalyticsService.Counts.{
  has_type, in_region, dashboard-counts, confirmed_event-counts_segments, handle_event-AtLeast,
}
use distributed_traffic_serv.AnalyticsService.Measured.{OnTheHour, capacity_report-agrees}

abbrev config : Config
config = record { local_regions = []; has_peer = false }

abbrev env : Env
env = record {
  lock = λ seg. acquired;
  link = λ seg. answered;
  peer_lock = λ seg. acquired;
  commits = true;
  takes_confirmed = true;
  releases = λ seg. true;
  release_link = answered;
  takes_failed = true;
  settles = true;
}

abbrev job : Job
job = record { booking_id = "b1"; driver_id = "ann"; plate_number = none; departure_time = 0 }

abbrev first : RouteSegment
first = record {
  segment_id = "s1";
  region = "EU_WEST_IRELAND";
  slot_start = 0;
  slot_end = 3600000000;
  duration_minutes = 20;
}

abbrev second : RouteSegment
second = record first { segment_id = "s2"; region = "EU_WEST_UK" }

abbrev event : Event
event = confirmed_event config env job (first ∷ second ∷ [])

confirmed_event-counts_segments_example :
    (dashboard 9 (handle_event (2 ∷ []) event 7 []).0).confirmed
    ≡ length (first ∷ second ∷ []) + (dashboard 9 []).confirmed
confirmed_event-counts_segments_example =
    confirmed_event-counts_segments config env job first (second ∷ []) 2 7 9 [] (omega arith)

-- One booking, two bookings on the dashboard.
counted_twice : (dashboard 9 (handle_event (2 ∷ []) event 7 []).0).total_bookings ≡ 2
unfolding dashboard handle_event
counted_twice = refl

-- The database fails behind the first row, and takes both at the second delivery.
counted_thrice : (dashboard 9 (handle_event (1 ∷ 2 ∷ []) event 7 []).0).confirmed ≡ 3
unfolding dashboard handle_event
counted_thrice = refl

abbrev stored : List BookingEvent
stored = (handle_event (2 ∷ []) event 7 []).0

dashboard-counts_example :
    ((dashboard 9 stored).total_bookings ≡ length stored)
    × ((dashboard 9 stored).confirmed ≡ count (has_type "booking.confirmed") stored)
    × ((dashboard 9 stored).cancelled ≡ count (has_type "booking.cancelled") stored)
    × ((dashboard 9 stored).failed ≡ count (has_type "booking.failed") stored)
    × (tally_of "EU_WEST_UK" (dashboard 9 stored).by_region ≡ count (in_region "EU_WEST_UK") stored)
dashboard-counts_example = dashboard-counts 9 stored "EU_WEST_UK" refl

handled : (handle_event (1 ∷ 2 ∷ []) event 7 []).1 ≡ true
unfolding handle_event
handled = refl

handle_event-AtLeast_test :
    count (has_type "booking.confirmed") (rows_of event 7) + count (has_type "booking.confirmed") []
    ≤ count (has_type "booking.confirmed") (handle_event (1 ∷ 2 ∷ []) event 7 []).0
handle_event-AtLeast_test =
    handle_event-AtLeast (1 ∷ 2 ∷ []) event 7 9 [] "booking.confirmed" handled

abbrev rows : List BookingEvent
rows = rows_of event 7

two_rows : length rows ≡ 2
unfolding rows_of
two_rows = refl

deliver-repeats_test :
    ((deliver (1 ∷ 3 ∷ []) rows []).1 ≡ true)
    × (length (deliver (1 ∷ 3 ∷ []) rows []).0 ≡ 1 + length rows + 0)
deliver-repeats_test =
    deliver-repeats 1 3 rows [] (omega (arith, two_rows)) (omega (arith, two_rows))

abbrev reservation : Reservation
reservation = record {
  schema = region_ireland;
  booking_id = "b1";
  segment_id = "s1";
  driver_id = "ann";
  slot_start = 0;
  slot_end = 3600000000;
  status = confirmed;
}

abbrev db : Db
db = record {
  road_segments = record { schema = region_ireland; id = "s1"; max_capacity_per_slot = 4 } ∷ [];
  reservations = reservation ∷ [];
  segment_reservations = [];
  bookings = [];
}

abbrev whole : Percent
whole a b = dec (a * 100 / b) 0

abbrev capacity : Capacity
capacity = record { slot_start = 0; slot_end = 3600000000; booked = 1; max = 4 }

on_the_hour : All OnTheHour (reservation ∷ [])
unfolding floor_hour
on_the_hour = (refl, tt)

checks : check_capacity db region_ireland "s1" 0 ≡ some capacity
unfolding check_capacity schema_beq
checks = refl

few : length (groups (joined db)) ≤ 300
unfolding groups joined schema_beq
few = omega arith

capacity_report-agrees_example :
    (row : CapacityReport) × Memᴰ row (capacity_report whole db)
    × (row.segment_id ≡ "s1")
    × (row.slot_start ≡ 0)
    × (schema_of row.region ≡ some region_ireland)
    × (row.booked_count ≡ 1)
    × (row.max_capacity ≡ 4)
capacity_report-agrees_example =
    capacity_report-agrees whole db reservation capacity on_the_hour (Memᴰ.head refl) checks few
