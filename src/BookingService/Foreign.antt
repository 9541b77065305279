-- ===== src/BookingService/Foreign.antt =====
-- The reconciler of a node and the reservations that the node holds for bookings of its peer. The
-- documents docs/failure_model.md and docs/consistency_model.md tell otherwise of those of a booking
-- that is rejected or cancelled.
use distributed_traffic_serv.Base.{
  ℕ, ◌≡◌, refl, ap, ◌∙◌, String, Bool, true, false, ◌&&◌, List, [], ◌∷◌, All, All-imp, All-filter,
  map, any, filter, Bool-cases, inl, inr, if◌then◌else◌, ◌==◌, string_eq, eq_iff, arith,
}
use distributed_traffic_serv.Api.Bookings.{BookingStatus, rejected, cancelled}
use distributed_traffic_serv.BookingService.Store.{
  Schema, region_ireland, region_uk, region_france, schema_eq, Booking, Reservation, Db,
}
use distributed_traffic_serv.BookingService.Capacity.{release_row, release_segment}
use distributed_traffic_serv.BookingService.Peer.{peer_release}
use distributed_traffic_serv.BookingService.Reconciler.{
  is_over, Cutoffs, reject_orphan, cancel_dangling, ids, orphans, dangling, lingers, lingering,
  clean, reconcile_orphaned_sagas, reconcile_partition_inconsistencies, run_reconciliation_once,
}
use distributed_traffic_serv.BookingService.Passes.{All-map, each-keeps-on}

-- The reservations of a booking.
abbrev pub reservations_of : String → List Reservation → List Reservation
reservations_of id rows = filter (λ r. r.booking_id == id) rows

-- The node has no booking of the id.
abbrev pub IsForeign : String → Db → Type 0
IsForeign id db = All (λ b. (b.id == id) ≡ false) db.bookings

abbrev IsOther : String → String → Type 0
IsOther id k = (k == id) ≡ false

released_id :
    (schema : Schema) (k : String) (r : Reservation)
    → (release_row schema k r).booking_id ≡ r.booking_id
released_id schema k r = ground arith

unreleased :
    (schema : Schema) (k : String) (r : Reservation)
    → (r.booking_id == k) ≡ false
    → release_row schema k r ≡ r
unreleased schema k r e = rw e (ground arith)

module _ (id : String) where
  release-reservations_of :
      (schema : Schema) (k : String) (rows : List Reservation)
      → IsOther id k
      → reservations_of id (map (release_row schema k) rows) ≡ reservations_of id rows
  unfolding filter
  release-reservations_of schema k [] other = refl
  release-reservations_of schema k (r ∷ rows) other =
      let more : reservations_of id (map (release_row schema k) rows) ≡ reservations_of id rows =
        release-reservations_of schema k rows other in
      elim (Bool-cases (r.booking_id == k)) [
        | inl e ↦
            let same : r.booking_id ≡ k = (eq_iff r.booking_id k).0 e in
            let away : (r.booking_id == id) ≡ false = rw same other in
            rw (released_id schema k r) (rw away more)
        | inr e ↦ rw (unreleased schema k r e) (elim (Bool-cases (r.booking_id == id)) [
          | inl f ↦ rw f (ap (λ rest. r ∷ rest) more)
          | inr f ↦ rw f more
        ])
      ]

  any-IsOther :
      (q : Booking → Bool) (k : String) (bookings : List Booking)
      → All (λ b. (b.id == id) ≡ false) bookings
      → any (λ b. b.id == k && q b) bookings ≡ true
      → IsOther id k
  unfolding any
  any-IsOther q k [] h found = absurd (ground (arith, found))
  any-IsOther q k (b ∷ rest) (n, h) found = elim (Bool-cases (b.id == k)) [
    | inl e ↦ let same : b.id ≡ k = (eq_iff b.id k).0 e in rw (← same) n
    | inr e ↦ any-IsOther q k rest h (ground (arith, found, e))
  ]

  -- What is kept: the node has no booking of the id, and the reservations of the id are `rows`.
  abbrev Kept : List Reservation → Db → Type 0
  Kept rows db = IsForeign id db × (reservations_of id db.reservations ≡ rows)

  set_status-IsForeign :
      (status : BookingStatus) (k : String) (bookings : List Booking)
      → All (λ b. (b.id == id) ≡ false) bookings
      → All
          (λ b. (b.id == id) ≡ false)
          (map (λ b. if b.id == k then record b { status = status } else b) bookings)
  set_status-IsForeign status k bookings h =
      All-map (λ b. (b.id == id) ≡ false)
        (λ b. if b.id == k then record b { status = status } else b) bookings
        (All-imp (λ b n. ground (arith, n)) bookings h)

  release_segment-Kept :
      (rows : List Reservation) (schema : Schema) (k : String) (db : Db)
      → IsOther id k
      → Kept rows db
      → Kept rows (release_segment schema k db)
  unfolding release_segment
  release_segment-Kept rows schema k db other (h, same) =
      (h, release-reservations_of schema k db.reservations other ∙ same)

  peer_release-Kept :
      (rows : List Reservation) (k : String) (db : Db)
      → IsOther id k
      → Kept rows db
      → Kept rows (peer_release k db)
  unfolding peer_release
  peer_release-Kept rows k db other h =
      let ireland : Db = release_segment region_ireland k db in
      let uk : Db = release_segment region_uk k ireland in
      release_segment-Kept rows region_france k uk other (
        release_segment-Kept rows region_uk k ireland other
          (release_segment-Kept rows region_ireland k db other h))

  reject_orphan-Kept :
      (rows : List Reservation) (k : String) (db : Db)
      → IsOther id k
      → Kept rows db
      → Kept rows (reject_orphan k db)
  unfolding reject_orphan
  reject_orphan-Kept rows k db other h =
      let (foreign, same) = peer_release-Kept rows k db other h in
      (set_status-IsForeign rejected k (peer_release k db).bookings foreign, same)

  cancel_dangling-Kept :
      (rows : List Reservation) (k : String) (db : Db)
      → IsOther id k
      → Kept rows db
      → Kept rows (cancel_dangling k db)
  unfolding cancel_dangling
  cancel_dangling-Kept rows k db other h =
      let (foreign, same) = peer_release-Kept rows k db other h in
      (set_status-IsForeign cancelled k (peer_release k db).bookings foreign, same)

  -- The ids of the node's own bookings are other ids.
  ids-IsOther :
      (p : Booking → Bool) (bookings : List Booking)
      → All (λ b. (b.id == id) ≡ false) bookings
      → All (IsOther id) (ids (filter p bookings))
  ids-IsOther p bookings h =
      All-map (IsOther id) (λ b. b.id) (filter p bookings)
        (All-filter (λ b. (b.id == id) ≡ false) p bookings h)

  lingering-IsOther :
      (schema : Schema) (bookings : List Booking) (rows : List Reservation)
      → All (λ b. (b.id == id) ≡ false) bookings
      → All (IsOther id) (map (λ r. r.booking_id) (filter (lingers schema bookings) rows))
  unfolding filter lingers
  lingering-IsOther schema bookings [] h = tt
  lingering-IsOther schema bookings (r ∷ rows) h = elim (Bool-cases (lingers schema bookings r)) [
    | inl e ↦ rw e (
      any-IsOther (λ b. is_over b.status) r.booking_id bookings h (ground (arith, e)),
      lingering-IsOther schema bookings rows h,
    )
    | inr e ↦ rw e (lingering-IsOther schema bookings rows h)
  ]

  clean-Kept :
      (rows : List Reservation) (schema : Schema) (db : Db)
      → Kept rows db
      → Kept rows (clean schema db)
  unfolding clean lingering
  clean-Kept rows schema db h =
      each-keeps-on (IsOther id) (Kept rows) (release_segment schema)
        (λ k d. release_segment-Kept rows schema k d) (lingering schema db) db
        (lingering-IsOther schema db.bookings db.reservations h.0) h

  orphans-Kept :
      (rows : List Reservation) (cutoff : ℕ) (db : Db)
      → Kept rows db
      → Kept rows (reconcile_orphaned_sagas cutoff db)
  unfolding reconcile_orphaned_sagas orphans
  orphans-Kept rows cutoff db h =
      each-keeps-on (IsOther id) (Kept rows) reject_orphan (reject_orphan-Kept rows)
        (orphans cutoff db) db (ids-IsOther _ db.bookings h.0) h

  partition-Kept :
      (rows : List Reservation) (cutoff : ℕ) (db : Db)
      → Kept rows db
      → Kept rows (reconcile_partition_inconsistencies cutoff db)
  unfolding reconcile_partition_inconsistencies dangling
  partition-Kept rows cutoff db h = clean-Kept rows region_france _ (
      clean-Kept rows region_uk _ (
        clean-Kept rows region_ireland _ (
          each-keeps-on (IsOther id) (Kept rows) cancel_dangling (cancel_dangling-Kept rows)
            (dangling cutoff db) db (ids-IsOther _ db.bookings h.0) h)))

-- Where a node has no booking of an id, a pass of its reconciler leaves the reservations of that id
-- as they were, so those that it holds for its peer's bookings stand.
pub run_reconciliation_once-foreign :
    (cutoffs : Cutoffs) (id : String) (db : Db)
    → IsForeign id db
    → reservations_of id (run_reconciliation_once cutoffs db).reservations
      ≡ reservations_of id db.reservations
unfolding run_reconciliation_once
run_reconciliation_once-foreign cutoffs id db h =
    let rows : List Reservation = reservations_of id db.reservations in
    (partition-Kept id rows cutoffs.dangling _ (orphans-Kept id rows cutoffs.orphan db (h, refl))).1
