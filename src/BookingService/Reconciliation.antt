-- ===== src/BookingService/Reconciliation.antt =====
-- What one pass of the reconciler leaves, and that a second pass of the same clock finds nothing.
use distributed_traffic_serv.Base.{
  ℕ, ◌≡◌, refl, ap, ltb, String, Bool, false, not, ◌&&◌, List, [], ◌∷◌, All, All-imp, map, includes,
  Bool-cases, inl, inr, if◌then◌else◌, ◌==◌, string_eq, arith,
}
use distributed_traffic_serv.Api.Bookings.{BookingStatus, rejected, cancelled}
use distributed_traffic_serv.BookingService.Store.{
  Schema, region_ireland, region_uk, region_france, schema_eq, Booking, Reservation, Db,
}
use distributed_traffic_serv.BookingService.Capacity.{release_row, release_segment}
use distributed_traffic_serv.BookingService.Peer.{peer_release}
use distributed_traffic_serv.BookingService.Service.{is_cancelled}
use distributed_traffic_serv.BookingService.Reconciler.{
  is_confirmed_status, is_in_progress, Cutoffs, reject_orphan, cancel_dangling, each, ids, orphans,
  has_segment, dangling, lingers, lingering, clean, reconcile_orphaned_sagas,
  reconcile_partition_inconsistencies, run_reconciliation_once,
}
use distributed_traffic_serv.BookingService.Passes.{
  All-map, filter-none, each-keeps, all_listed, each-clears, same_sym,
}

-- A booking that is still in progress when it is too old for that.
abbrev is_orphan : ℕ → Booking → Bool
is_orphan cutoff b = is_in_progress b.status && ltb b.created_at cutoff

-- A confirmed booking of which the node has no confirmed segment.
abbrev is_dangling : ℕ → Db → Booking → Bool
is_dangling cutoff db b =
    is_confirmed_status b.status && ltb b.created_at cutoff && not (has_segment db b)

abbrev NoOrphan : ℕ → Db → Type 0
NoOrphan cutoff db = All (λ b. is_orphan cutoff b ≡ false) db.bookings

abbrev NoDangling : ℕ → Db → Type 0
NoDangling cutoff db = All (λ b. is_dangling cutoff db b ≡ false) db.bookings

abbrev NoneLingers : Schema → Db → Type 0
NoneLingers schema db = All (λ r. lingers schema db.bookings r ≡ false) db.reservations

-- A database in which the reconciler has nothing to do.
pub record IsSettled (cutoffs : Cutoffs) (db : Db) : Type 0 where
  pub no_orphan : NoOrphan cutoffs.orphan db
  pub no_dangling : NoDangling cutoffs.dangling db
  pub none_lingers : (schema : Schema) → NoneLingers schema db

-- The row that an UPDATE of a status for one id leaves.
abbrev row_set : BookingStatus → String → Booking → Booking
row_set status id b = if b.id == id then record b { status = status } else b

set_status-keeps :
    (bad : Booking → Bool) (status : BookingStatus)
    → ((b : Booking) → bad (record b { status = status }) ≡ false)
    → (id : String) (bookings : List Booking) → All (λ b. bad b ≡ false) bookings
    → All (λ b. bad b ≡ false) (map (row_set status id) bookings)
set_status-keeps bad status clean_ id bookings h =
    All-map (λ b. bad b ≡ false) (row_set status id) bookings
      (All-imp (λ b k. elim (Bool-cases (b.id == id)) [ inl e ↦ rw e (clean_ b) | inr e ↦ rw e k ])
        bookings h)

set_status-clears :
    (bad : Booking → Bool) (status : BookingStatus)
    → ((b : Booking) → bad (record b { status = status }) ≡ false)
    → (id : String) (rest : List String) (bookings : List Booking)
    → All (λ b. (bad b && not (includes (id ∷ rest) b.id)) ≡ false) bookings
    → All (λ b. (bad b && not (includes rest b.id)) ≡ false) (map (row_set status id) bookings)
unfolding includes
set_status-clears bad status clean_ id rest bookings h =
    All-map (λ b. (bad b && not (includes rest b.id)) ≡ false) (row_set status id) bookings
      (All-imp
        (λ b k. elim (Bool-cases (b.id == id)) [
          | inl e ↦ rw e (ground (arith, clean_ b))
          | inr e ↦ rw e (ground (arith, k, e, same_sym b.id id))
        ])
        bookings h)

reconcile_orphaned_sagas-NoOrphan :
    (cutoff : ℕ) (db : Db) → NoOrphan cutoff (reconcile_orphaned_sagas cutoff db)
unfolding reconcile_orphaned_sagas orphans reject_orphan is_in_progress peer_release release_segment
reconcile_orphaned_sagas-NoOrphan cutoff db =
    each-clears (λ d. d.bookings) (λ d. is_orphan cutoff) (λ b. b.id) reject_orphan
      (λ id rest d h.
        set_status-clears (is_orphan cutoff) rejected (λ b. refl) id rest d.bookings h)
      (orphans cutoff db) db (all_listed (is_orphan cutoff) (λ b. b.id) db.bookings)

each-cancel_dangling-NoDangling :
    (cutoff : ℕ) (db : Db) → NoDangling cutoff (each cancel_dangling (dangling cutoff db) db)
unfolding dangling cancel_dangling is_confirmed_status has_segment peer_release release_segment
each-cancel_dangling-NoDangling cutoff db =
    each-clears (λ d. d.bookings) (is_dangling cutoff) (λ b. b.id) cancel_dangling
      (λ id rest d h.
        set_status-clears (is_dangling cutoff d) cancelled (λ b. refl) id rest d.bookings h)
      (dangling cutoff db) db (all_listed (is_dangling cutoff db) (λ b. b.id) db.bookings)

release_row-clears :
    (schema : Schema) (bookings : List Booking) (id : String) (rest : List String) (r : Reservation)
    → (lingers schema bookings r && not (includes (id ∷ rest) r.booking_id)) ≡ false
    → (lingers schema bookings (release_row schema id r)
        && not (includes rest (release_row schema id r).booking_id))
      ≡ false
unfolding lingers is_cancelled includes
release_row-clears schema bookings id rest r h = ground (arith, h, same_sym r.booking_id id)

clean-NoneLingers : (schema : Schema) (db : Db) → NoneLingers schema (clean schema db)
unfolding clean lingering release_segment
clean-NoneLingers schema db =
    each-clears (λ d. d.reservations) (λ d. lingers schema d.bookings) (λ r. r.booking_id)
      (release_segment schema)
      (λ id rest d h.
        All-map (λ r. (lingers schema d.bookings r && not (includes rest r.booking_id)) ≡ false)
          (release_row schema id) d.reservations
          (All-imp (release_row-clears schema d.bookings id rest) d.reservations h))
      (lingering schema db) db
      (all_listed (lingers schema db.bookings) (λ r. r.booking_id) db.reservations)

release_row-lingers :
    (schema other : Schema) (bookings : List Booking) (id : String) (r : Reservation)
    → lingers schema bookings r ≡ false
    → lingers schema bookings (release_row other id r) ≡ false
unfolding lingers is_cancelled
release_row-lingers schema other bookings id r h = ground (arith, h)

-- Releasing settles no row anew.
clean-keeps :
    (schema : Schema) (P : Db → Type 0)
    → ((id : String) (db : Db) → P db → P (release_segment schema id db))
    → (db : Db) → P db
    → P (clean schema db)
unfolding clean
clean-keeps schema P keeps db h =
    each-keeps P (release_segment schema) keeps (lingering schema db) db h

clean-keeps-NoneLingers :
    (schema other : Schema) (db : Db) → NoneLingers schema db → NoneLingers schema (clean other db)
unfolding release_segment
clean-keeps-NoneLingers schema other = clean-keeps other (NoneLingers schema) (λ id db h.
    All-map (λ r. lingers schema db.bookings r ≡ false) (release_row other id) db.reservations
      (All-imp (release_row-lingers schema other db.bookings id) db.reservations h))

clean_all-NoneLingers :
    (db : Db) (schema : Schema)
    → NoneLingers schema (clean region_france (clean region_uk (clean region_ireland db)))
clean_all-NoneLingers db region_ireland =
    clean-keeps-NoneLingers region_ireland region_france _
      (clean-keeps-NoneLingers region_ireland region_uk _ (clean-NoneLingers region_ireland db))
clean_all-NoneLingers db region_uk =
    clean-keeps-NoneLingers region_uk region_france _ (clean-NoneLingers region_uk _)
clean_all-NoneLingers db region_france = clean-NoneLingers region_france _

-- Releasing reservations writes no booking.
clean-keeps-bookings :
    (cutoffs : Cutoffs) (schema : Schema) (db : Db)
    → NoOrphan cutoffs.orphan db × NoDangling cutoffs.dangling db
    → NoOrphan cutoffs.orphan (clean schema db) × NoDangling cutoffs.dangling (clean schema db)
unfolding release_segment has_segment
clean-keeps-bookings cutoffs schema =
    clean-keeps schema (λ d. NoOrphan cutoffs.orphan d × NoDangling cutoffs.dangling d)
      (λ id d h. h)

IsSettled-clean :
    (cutoffs : Cutoffs) (db : Db)
    → NoOrphan cutoffs.orphan db
    → NoDangling cutoffs.dangling db
    → IsSettled cutoffs (clean region_france (clean region_uk (clean region_ireland db)))
IsSettled-clean cutoffs db h k =
    let (no_orphan, no_dangling) = clean-keeps-bookings cutoffs region_france _ (
      clean-keeps-bookings cutoffs region_uk _
        (clean-keeps-bookings cutoffs region_ireland db (h, k))) in
    record {
      no_orphan = no_orphan;
      no_dangling = no_dangling;
      none_lingers = clean_all-NoneLingers db;
    }

-- After one pass of the reconciler no booking that is older than the first limit is in progress, no
-- confirmed booking that is older than the second lacks a confirmed segment, and no reservation of
-- a booking that is rejected or cancelled stands in any schema.
pub run_reconciliation_once-IsSettled :
    (cutoffs : Cutoffs) (db : Db) → IsSettled cutoffs (run_reconciliation_once cutoffs db)
unfolding run_reconciliation_once reconcile_partition_inconsistencies cancel_dangling is_in_progress
    peer_release release_segment
run_reconciliation_once-IsSettled cutoffs db =
    let started : Db = reconcile_orphaned_sagas cutoffs.orphan db in
    IsSettled-clean cutoffs (each cancel_dangling (dangling cutoffs.dangling started) started)
      (each-keeps (NoOrphan cutoffs.orphan) cancel_dangling
        (λ id d h.
          set_status-keeps (is_orphan cutoffs.orphan) cancelled (λ b. refl) id d.bookings h)
        (dangling cutoffs.dangling started) started
        (reconcile_orphaned_sagas-NoOrphan cutoffs.orphan db))
      (each-cancel_dangling-NoDangling cutoffs.dangling started)

each-none : (f : String → Db → Db) (ids : List String) (db : Db) → ids ≡ [] → each f ids db ≡ db
unfolding each
each-none f ids db e = rw e refl

clean-settled : (schema : Schema) (db : Db) → NoneLingers schema db → clean schema db ≡ db
unfolding clean lingering
clean-settled schema db h =
    each-none (release_segment schema) _ db
      (ap (map (λ r. r.booking_id)) (filter-none (lingers schema db.bookings) db.reservations h))

-- A pass over a database in which there is nothing to do changes nothing.
pub run_reconciliation_once-settled :
    (cutoffs : Cutoffs) (db : Db) → IsSettled cutoffs db → run_reconciliation_once cutoffs db ≡ db
unfolding run_reconciliation_once reconcile_orphaned_sagas reconcile_partition_inconsistencies
    orphans dangling
run_reconciliation_once-settled cutoffs db h =
    let one : each reject_orphan (orphans cutoffs.orphan db) db ≡ db =
      each-none reject_orphan _ db
        (ap ids (filter-none (is_orphan cutoffs.orphan) db.bookings h.no_orphan)) in
    let two : each cancel_dangling (dangling cutoffs.dangling db) db ≡ db =
      each-none cancel_dangling _ db
        (ap ids (filter-none (is_dangling cutoffs.dangling db) db.bookings h.no_dangling)) in
    rw one (
      rw two (
        rw (clean-settled region_ireland db (h.none_lingers region_ireland)) (
          rw (clean-settled region_uk db (h.none_lingers region_uk))
            (clean-settled region_france db (h.none_lingers region_france)))))

-- A second pass with the same limits changes nothing.
pub run_reconciliation_once-twice :
    (cutoffs : Cutoffs) (db : Db)
    → run_reconciliation_once cutoffs (run_reconciliation_once cutoffs db)
      ≡ run_reconciliation_once cutoffs db
run_reconciliation_once-twice cutoffs db =
    run_reconciliation_once-settled cutoffs (run_reconciliation_once cutoffs db)
      (run_reconciliation_once-IsSettled cutoffs db)
