-- ===== src/BookingService/Cancellation.antt =====
-- What cancelling a booking does, and when its reservations are given back.
use mathlib.Core.Path.{subst}
use distributed_traffic_serv.Base.{
  ◌≡◌, ◌≢◌, refl, sym, String, true, false, not, ◌&&◌, Option, none, some, List, [], ◌∷◌, All, map,
  any, Bool-cases, inl, inr, if◌then◌else◌, ◌==◌, string_eq, eq_iff, arith,
}
use distributed_traffic_serv.Api.Bookings.{BookingStatus, rejected, cancelled}
use distributed_traffic_serv.BookingService.Store.{
  Schema, schema_eq, schema_beq_iff, region_ireland, region_uk, region_france, Booking, Reservation,
  SegmentReservation, Db, is_active,
}
use distributed_traffic_serv.BookingService.Capacity.{release_segment}
use distributed_traffic_serv.BookingService.Peer.{peer_release}
use distributed_traffic_serv.BookingService.Service.{
  find_booking, put_booking, Cancelled, unknown, forbidden, unchanged, done, cancel_rows,
  is_cancelled, cancel_found, cancel_booking,
}
use distributed_traffic_serv.BookingService.Reconciler.{
  is_over, Cutoffs, reject_orphan, cancel_dangling, each, orphans, dangling, lingers, lingering,
  clean, reconcile_orphaned_sagas, reconcile_partition_inconsistencies, run_reconciliation_once,
}
use distributed_traffic_serv.BookingService.Holding.{is_held, HoldsNone, nowhere}
use distributed_traffic_serv.BookingService.Passes.{each-keeps}
use distributed_traffic_serv.BookingService.Refusal.{find_booking-put}
use distributed_traffic_serv.BookingService.Reconciliation.{
  IsSettled, run_reconciliation_once-IsSettled,
}

find_booking-id :
    (id : String) (bookings : List Booking) (b : Booking)
    → find_booking id bookings ≡ some b
    → b.id ≡ id
unfolding find_booking
find_booking-id id [] b h = absurd (ground (arith, h))
find_booking-id id (x ∷ rest) b h = elim (Bool-cases (x.id == id)) [
  | inl e ↦ let same : x ≡ b = ground (arith, h, e) in rw (← same) ((eq_iff x.id id).0 e)
  | inr e ↦ find_booking-id id rest b (ground (arith, h, e))
]

-- No confirmed segment is left of a booking.
abbrev pub NoSegment : String → List SegmentReservation → Type 0
NoSegment id rows = All (λ r. (r.booking_id == id && not (is_cancelled r.status)) ≡ false) rows

cancel_rows-NoSegment :
    (id : String) (rows : List SegmentReservation) → NoSegment id (cancel_rows id rows)
unfolding is_cancelled
cancel_rows-NoSegment id [] = tt
cancel_rows-NoSegment id (r ∷ rows) = (ground arith, cancel_rows-NoSegment id rows)

-- What each answer to a cancellation says.
abbrev pub CancelOutcome : String → String → Db → Db → Cancelled → Type 0
CancelOutcome id driver_id db db' unknown = (db' ≡ db) × (find_booking id db.bookings ≡ none)
CancelOutcome id driver_id db db' forbidden =
    (db' ≡ db)
    × ((b : Booking) × (find_booking id db.bookings ≡ some b) × (b.driver_id ≢ driver_id))
CancelOutcome id driver_id db db' (unchanged b) =
    (db' ≡ db)
    × (find_booking id db.bookings ≡ some b)
    × (b.driver_id ≡ driver_id)
    × (is_cancelled b.status ≡ true)
CancelOutcome id driver_id db db' (done b) =
    (find_booking id db'.bookings ≡ some b)
    × (b.driver_id ≡ driver_id)
    × (b.status ≡ cancelled)
    × NoSegment id db'.segment_reservations
    × (db'.reservations ≡ db.reservations)

cancel_found-outcome :
    (id driver_id : String) (db : Db) (found : Option Booking)
    → find_booking id db.bookings ≡ found
    → CancelOutcome id driver_id db
        (cancel_found driver_id db found).0
        (cancel_found driver_id db found).1
unfolding cancel_found
cancel_found-outcome id driver_id db none h = (refl, h)
cancel_found-outcome id driver_id db (some b) h = elim (Bool-cases (b.driver_id == driver_id)) [
  | inr e ↦ rw e (refl, (b, h, λ same. ground (arith, e, (eq_iff b.driver_id driver_id).1 same)))
  | inl e ↦ elim (Bool-cases (is_cancelled b.status)) [
    | inl f ↦ rw e (rw f (refl, h, (eq_iff b.driver_id driver_id).0 e, f))
    | inr f ↦
        let same : b.id ≡ id = find_booking-id id db.bookings b h in
        let gone : Booking = record b { status = cancelled } in
        rw e (
          rw f (
            subst (λ i. find_booking i (put_booking gone db.bookings) ≡ some gone) same
                (find_booking-put gone db.bookings),
            (eq_iff b.driver_id driver_id).0 e,
            refl,
            subst (λ i. NoSegment id (cancel_rows i db.segment_reservations)) (sym same)
                (cancel_rows-NoSegment id db.segment_reservations),
            refl,
          ))
  ]
]

-- Whatever `cancel_booking` answers: an unknown booking and another driver's are left alone, so is a
-- booking that is cancelled already; otherwise the booking is stored as cancelled with every segment
-- of it. The reservations stay in every case.
pub cancel_booking-outcome :
    (id driver_id : String) (db : Db)
    → CancelOutcome id driver_id db
        (cancel_booking id driver_id db).0
        (cancel_booking id driver_id db).1
unfolding cancel_booking
cancel_booking-outcome id driver_id db =
    cancel_found-outcome id driver_id db (find_booking id db.bookings) refl

-- A booking of the id is rejected or cancelled.
abbrev pub IsOver : String → Db → Type 0
IsOver id db = any (λ b. b.id == id && is_over b.status) db.bookings ≡ true

set_status-IsOver :
    (id : String) (status : BookingStatus) (k : String) (bookings : List Booking)
    → is_over status ≡ true
    → any (λ b. b.id == id && is_over b.status) bookings ≡ true
    → any
        (λ b. b.id == id && is_over b.status)
        (map (λ b. if b.id == k then record b { status = status } else b) bookings)
      ≡ true
unfolding any
set_status-IsOver id status k [] over h = h
set_status-IsOver id status k (b ∷ rest) over h =
    ground (arith, over, h, set_status-IsOver id status k rest over)

reject_orphan-IsOver : (id k : String) (db : Db) → IsOver id db → IsOver id (reject_orphan k db)
unfolding reject_orphan peer_release release_segment is_over
reject_orphan-IsOver id k db h = set_status-IsOver id rejected k db.bookings refl h

cancel_dangling-IsOver : (id k : String) (db : Db) → IsOver id db → IsOver id (cancel_dangling k db)
unfolding cancel_dangling peer_release release_segment is_over
cancel_dangling-IsOver id k db h = set_status-IsOver id cancelled k db.bookings refl h

clean-IsOver :
    (id : String) (schema : Schema) (db : Db) → IsOver id db → IsOver id (clean schema db)
unfolding clean release_segment
clean-IsOver id schema db h =
    each-keeps (IsOver id) (release_segment schema) (λ k d g. g) (lingering schema db) db h

run_reconciliation_once-IsOver :
    (cutoffs : Cutoffs) (id : String) (db : Db)
    → IsOver id db
    → IsOver id (run_reconciliation_once cutoffs db)
unfolding run_reconciliation_once reconcile_orphaned_sagas reconcile_partition_inconsistencies
run_reconciliation_once-IsOver cutoffs id db h =
    let orphans_done : Db = each reject_orphan (orphans cutoffs.orphan db) db in
    let found : List String = dangling cutoffs.dangling orphans_done in
    let dangling_done : Db = each cancel_dangling found orphans_done in
    let ireland : Db = clean region_ireland dangling_done in
    let uk : Db = clean region_uk ireland in
    clean-IsOver id region_france uk (
      clean-IsOver id region_uk ireland (
        clean-IsOver id region_ireland dangling_done (
          each-keeps (IsOver id) cancel_dangling (cancel_dangling-IsOver id) found orphans_done (
            each-keeps (IsOver id) reject_orphan (reject_orphan-IsOver id)
              (orphans cutoffs.orphan db) db h))))

active-lingers :
    (id : String) (bookings : List Booking) (r : Reservation)
    → any (λ b. b.id == id && is_over b.status) bookings ≡ true
    → lingers r.schema bookings r ≡ false
    → is_held id r ≡ false
unfolding is_held lingers is_cancelled is_active
active-lingers id bookings r over h = elim (Bool-cases (r.booking_id == id)) [
  | inr e ↦ rw e refl
  | inl e ↦
      let same : r.booking_id ≡ id = (eq_iff r.booking_id id).0 e in
      let over_too : any (λ b. b.id == r.booking_id && is_over b.status) bookings ≡ true =
        rw same over in
      ground (arith, h, over_too, (schema_beq_iff r.schema r.schema).1 refl)
]

over-HoldsNone :
    (id : String) (bookings : List Booking) (rows : List Reservation)
    → any (λ b. b.id == id && is_over b.status) bookings ≡ true
    → ((schema : Schema) → All (λ r. lingers schema bookings r ≡ false) rows)
    → All (λ r. (is_held id r && not (nowhere r.schema)) ≡ false) rows
over-HoldsNone id bookings [] over h = tt
over-HoldsNone id bookings (r ∷ rows) over h = (
  rw (active-lingers id bookings r over (h r.schema).0) refl,
  over-HoldsNone id bookings rows over (λ schema. (h schema).1),
)

-- After a pass of the reconciler the node has no active reservation of a booking of its own that is
-- rejected or cancelled.
pub run_reconciliation_once-frees :
    (cutoffs : Cutoffs) (id : String) (db : Db)
    → IsOver id db
    → HoldsNone id (run_reconciliation_once cutoffs db)
run_reconciliation_once-frees cutoffs id db h =
    let after : Db = run_reconciliation_once cutoffs db in
    let settled : IsSettled cutoffs after = run_reconciliation_once-IsSettled cutoffs db in
    over-HoldsNone id after.bookings after.reservations
      (run_reconciliation_once-IsOver cutoffs id db h) settled.none_lingers
