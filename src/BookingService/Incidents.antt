-- ===== src/BookingService/Incidents.antt =====
-- Runs in which a failure on the way leaves something behind.
use distributed_traffic_serv.Base.{
  ◌≡◌, refl, false, some, [], ◌∷◌, map, ◌==◌, string_eq, if◌then◌else◌,
}
use distributed_traffic_serv.Api.Bookings.{confirmed, rejected, cancelled}
use distributed_traffic_serv.BookingService.Store.{region_ireland, schema_beq, Db, hour}
use distributed_traffic_serv.BookingService.Capacity.{booked}
use distributed_traffic_serv.BookingService.Saga.{
  RouteSegment, answered, request_lost, answer_broken, region_unavailable, answer_unread, Env,
}
use distributed_traffic_serv.BookingService.Service.{found, Created, create_booking}
use distributed_traffic_serv.BookingService.Reconciler.{run_reconciliation_once}
use distributed_traffic_serv.BookingService.Sample.{
  dublin, route, uk_node, all_well, job, irish_roads, uk_db, irish_db,
}

-- A second segment at the peer.
abbrev cork : RouteSegment
cork = record {
  segment_id = "m8";
  region = "EU_WEST_IRELAND";
  slot_start = 7200000000;
  slot_end = 10800000000;
  duration_minutes = 60;
}

abbrev two_irish_roads : Db
two_irish_roads = record irish_db {
  road_segments =
      record { schema = region_ireland; id = "m8"; max_capacity_per_slot = 2 } ∷ irish_roads;
}

-- The call for the second segment does not reach the peer, the one for the first did.
abbrev second_lost : Env
second_lost = record all_well {
  link = λ seg. if seg.segment_id == "m8" then request_lost else answered;
}

abbrev lost : Created
lost =
    create_booking uk_node second_lost job 5 (found (dublin ∷ cork ∷ []) 110) uk_db two_irish_roads

lost_raises : lost.error ≡ some (region_unavailable "EU_WEST_IRELAND")
unfolding create_booking schema_beq
lost_raises = refl

-- The peer keeps the reservation of the rejected booking, behind a pass of its reconciler as well.
lost_keeps :
    booked region_ireland "m50" hour
      (run_reconciliation_once (record { orphan = 900; dangling = 900 }) lost.there).reservations
    ≡ 1
unfolding create_booking schema_beq booked run_reconciliation_once
lost_keeps = refl

-- The answer of the peer to the one call breaks off behind its commit.
abbrev broken : Created
broken =
    create_booking uk_node (record all_well { link = λ seg. answer_broken }) job 5 (found route 90)
      uk_db irish_db

broken_raises : broken.error ≡ some answer_unread
unfolding create_booking schema_beq
broken_raises = refl

-- No region is reported as unavailable, and yet the peer keeps the reservation of the rejected
-- booking.
broken_keeps : booked region_ireland "m50" hour broken.there.reservations ≡ 1
unfolding create_booking schema_beq booked
broken_keeps = refl

-- The broker refuses the event of a booking that is committed.
abbrev untold : Created
untold =
    create_booking uk_node (record all_well { takes_confirmed = false }) job 5 (found route 90)
      uk_db irish_db

untold_rejected : untold.booking.status ≡ rejected
unfolding create_booking schema_beq
untold_rejected = refl

-- Its segment is still stored as confirmed.
untold_segment : map (λ s. s.status) untold.here.segment_reservations ≡ confirmed ∷ []
unfolding create_booking schema_beq
untold_segment = refl

-- A confirmed booking with segments at the peer only.
abbrev abroad : Created
abroad = create_booking uk_node all_well job 5 (found (dublin ∷ []) 50) uk_db irish_db

abroad_confirmed : map (λ b. b.status) abroad.here.bookings ≡ confirmed ∷ []
unfolding create_booking schema_beq
abroad_confirmed = refl

-- A later pass of the reconciler cancels it.
abroad_cancelled :
    map
      (λ b. b.status)
      (run_reconciliation_once (record { orphan = 900; dangling = 900 }) abroad.here).bookings
    ≡ cancelled ∷ []
unfolding create_booking schema_beq run_reconciliation_once
abroad_cancelled = refl
