-- ===== src/BookingService/Tests.antt =====
-- Two nodes, a route over both, and the bookings that they serve.
use distributed_traffic_serv.Base.{
  Option, String, ℕ, ◌≡◌, ◌≢◌, refl, true, false, none, some, List, [], ◌∷◌, any, All, length,
  arith,
}
use distributed_traffic_serv.Api.Bookings.{confirmed, saga_in_progress}
use distributed_traffic_serv.BookingService.Store.{
  Schema, region_ireland, region_uk, Booking, Db, hour, floor_hour, schema_of, schema_beq,
}
use distributed_traffic_serv.BookingService.Capacity.{booked, find_capacity}
use distributed_traffic_serv.BookingService.Saga.{
  is_local, answered, request_lost, peer_full, Env, Ended, execute_booking_saga,
}
use distributed_traffic_serv.BookingService.Service.{
  found, new_booking, put, create_booking, cancel_booking,
}
use distributed_traffic_serv.BookingService.Routing.{SegmentEdge, resolve_route}
use distributed_traffic_serv.BookingService.Timetable.{IsTimely, resolve_route-IsTimely}
use distributed_traffic_serv.BookingService.Preview.{preview_route}
use distributed_traffic_serv.BookingService.Previewing.{IsPreviewOf, preview_route-IsPreviewOf}
use distributed_traffic_serv.BookingService.Reconciler.{is_over, Cutoffs, run_reconciliation_once}
use distributed_traffic_serv.BookingService.Bounds.{IsWithin}
use distributed_traffic_serv.BookingService.Serving.{Served, begun, created, Served-IsWithin}
use distributed_traffic_serv.BookingService.Holding.{is_held, HoldsNone}
use distributed_traffic_serv.BookingService.Refusal.{IsRefused, create_booking-IsRefused}
use distributed_traffic_serv.BookingService.Confirmation.{IsConfirmed, create_booking-IsConfirmed}
use distributed_traffic_serv.BookingService.Room.{HasRoom}
use distributed_traffic_serv.BookingService.Availability.{AllAnswers, create_booking-succeeds}
use distributed_traffic_serv.BookingService.Reconciliation.{
  IsSettled, run_reconciliation_once-IsSettled, run_reconciliation_once-twice,
}
use distributed_traffic_serv.BookingService.Cancellation.{
  CancelOutcome, cancel_booking-outcome, IsOver, run_reconciliation_once-frees,
}
use distributed_traffic_serv.BookingService.Foreign.{
  IsForeign, reservations_of, run_reconciliation_once-foreign,
}
use distributed_traffic_serv.BookingService.Sample.{
  route, uk_node, all_well, job, uk_db, irish_db, full_db,
}

empty-IsWithin : (db : Db) → db.reservations ≡ [] → IsWithin db
unfolding booked
empty-IsWithin db e = record { within = λ schema id slot. rw e (omega arith) }

-- The path from Manchester to Dublin, forty and fifty minutes long, from eight past nine.
abbrev path : List SegmentEdge
path =
    record { segment_id = "m62"; region = "EU_WEST_UK"; rounded_minutes = 40 }
    ∷ record { segment_id = "m50"; region = "EU_WEST_IRELAND"; rounded_minutes = 50 }
    ∷ []

abbrev morning : ℕ
morning = 32880000000

resolve_route-IsTimely_example : IsTimely morning (resolve_route true path 3 morning)
resolve_route-IsTimely_example = resolve_route-IsTimely true path 3 morning

abbrev served :
    Served uk_db irish_db
      (create_booking uk_node all_well job 5 (resolve_route true path 3 0) uk_db irish_db).here
      (create_booking uk_node all_well job 5 (resolve_route true path 3 0) uk_db irish_db).there
served = created uk_node all_well job 5 true path 3 begun

Served-IsWithin_example :
    IsWithin
      (create_booking uk_node all_well job 5 (resolve_route true path 3 0) uk_db irish_db).here
    × IsWithin
        (create_booking uk_node all_well job 5 (resolve_route true path 3 0) uk_db irish_db).there
Served-IsWithin_example =
    Served-IsWithin (empty-IsWithin uk_db refl) (empty-IsWithin irish_db refl) served

answered≢request_lost : answered ≢ request_lost
answered≢request_lost same = ground (arith, same)

-- The peer is full, so the segment at home is released again.
full_at_peer :
    (create_booking uk_node all_well job 5 (found route 90) uk_db full_db).error
    ≡ some (peer_full "m50")
unfolding create_booking schema_beq
full_at_peer = refl

others_hold : HoldsNone "b1" full_db
unfolding is_held
others_hold = (refl, (refl, tt))

create_booking-IsRefused_example :
    IsRefused job
      (peer_full "m50")
      (create_booking uk_node all_well job 5 (found route 90) uk_db full_db)
create_booking-IsRefused_example =
    create_booking-IsRefused uk_node all_well job (λ seg. refl) answered≢request_lost refl refl 5
      (found route 90) uk_db full_db (peer_full "m50") tt others_hold full_at_peer

taken : (create_booking uk_node all_well job 5 (found route 90) uk_db irish_db).error ≡ none
unfolding create_booking schema_beq
taken = refl

abbrev unsettled : Env
unsettled = record all_well { settles = false }

abbrev saga_run : Ended
saga_run =
    execute_booking_saga uk_node unsettled job route uk_db (put (new_booking job 5) uk_db) irish_db

create_booking-IsConfirmed_example :
    IsConfirmed uk_node all_well job 5 route 90 uk_db irish_db
      (create_booking uk_node all_well job 5 (found route 90) uk_db irish_db)
create_booking-IsConfirmed_example =
    create_booking-IsConfirmed uk_node all_well job 5 90 route uk_db irish_db taken

all_answer : AllAnswers all_well
all_answer = record {
  locks = λ seg. refl;
  links = λ seg. refl;
  peer_locks = λ seg. refl;
  committed = refl;
  taken = refl;
  settled = refl;
}

room : All (HasRoom uk_node (length route) (uk_db, irish_db)) route
unfolding schema_of is_local booked find_capacity floor_hour schema_beq
room = ((region_uk, refl, omega arith), ((region_ireland, refl, omega arith), tt))

create_booking-succeeds_example :
    (create_booking uk_node all_well job 5 (found route 90) uk_db irish_db).error ≡ none
create_booking-succeeds_example =
    create_booking-succeeds uk_node all_well job all_answer 5 90 route uk_db irish_db room

abbrev withdrawn : Booking
withdrawn = record {
  id = "b8";
  driver_id = "bob";
  plate_number = none;
  departure_time = 0;
  status = confirmed;
  estimated_duration_minutes = some 50;
  created_at = 5;
}

abbrev stuck : Booking
stuck = record withdrawn { id = "b2"; status = saga_in_progress; created_at = 3 }

-- A booking of the node's own, one that never ended, and a reservation of the peer's.
abbrev own_db : Db
own_db = record full_db {
  bookings = withdrawn ∷ stuck ∷ [];
  segment_reservations =
      record {
        booking_id = "b8";
        segment_id = "m50";
        region = "EU_WEST_IRELAND";
        slot_start = hour;
        slot_end = 7200000000;
        status = confirmed;
      }
      ∷ [];
}

abbrev cutoffs : Cutoffs
cutoffs = record { orphan = 10; dangling = 8 }

abbrev withdrawn_db : Db
withdrawn_db = (cancel_booking "b8" "bob" own_db).0

cancel_booking-outcome_example :
    CancelOutcome "b8" "bob" own_db withdrawn_db (cancel_booking "b8" "bob" own_db).1
cancel_booking-outcome_example = cancel_booking-outcome "b8" "bob" own_db

run_reconciliation_once-IsSettled_example :
    IsSettled cutoffs (run_reconciliation_once cutoffs own_db)
run_reconciliation_once-IsSettled_example = run_reconciliation_once-IsSettled cutoffs own_db

run_reconciliation_once-twice_test :
    run_reconciliation_once cutoffs (run_reconciliation_once cutoffs own_db)
    ≡ run_reconciliation_once cutoffs own_db
run_reconciliation_once-twice_test = run_reconciliation_once-twice cutoffs own_db

cancelled-IsOver : IsOver "b8" withdrawn_db
unfolding cancel_booking any is_over
cancelled-IsOver = refl

run_reconciliation_once-frees_example :
    HoldsNone "b8" (run_reconciliation_once cutoffs withdrawn_db)
run_reconciliation_once-frees_example =
    run_reconciliation_once-frees cutoffs "b8" withdrawn_db cancelled-IsOver

peers_booking : IsForeign "b9" own_db
peers_booking = (refl, (refl, tt))

run_reconciliation_once-foreign_example :
    reservations_of "b9" (run_reconciliation_once cutoffs own_db).reservations
    ≡ reservations_of "b9" own_db.reservations
run_reconciliation_once-foreign_example =
    run_reconciliation_once-foreign cutoffs "b9" own_db peers_booking

-- The reservations of a booking that its driver cancels stand until a pass.
stands_until_pass : booked region_ireland "m50" hour withdrawn_db.reservations ≡ 2
unfolding booked cancel_booking schema_beq
stands_until_pass = refl

freed_by_pass :
    booked region_ireland "m50" hour (run_reconciliation_once cutoffs withdrawn_db).reservations ≡ 1
unfolding booked cancel_booking run_reconciliation_once schema_beq
freed_by_pass = refl

abbrev no_names : Schema → String → Option String
no_names schema id = none

preview_route-IsPreviewOf_example :
    IsPreviewOf (found route 90) (preview_route no_names (found route 90))
preview_route-IsPreviewOf_example = preview_route-IsPreviewOf no_names (found route 90)
