-- ===== src/BookingService/Reconciler.antt =====
-- reconciler.py: one pass over a node's own database. Its UPDATEs pass over the rows that are
-- cancelled already, which `release_segment` writes as they are.
use distributed_traffic_serv.Base.{
  ℕ, ltb, String, Bool, true, false, not, ◌&&◌, List, [], ◌∷◌, map, filter, any, ◌==◌, string_eq,
  if◌then◌else◌,
}
use distributed_traffic_serv.Api.Bookings.{
  BookingStatus, confirmed, rejected, cancelled, saga_in_progress,
}
use distributed_traffic_serv.BookingService.Store.{
  Schema, region_ireland, region_uk, region_france, schema_eq, Booking, Reservation, Db,
}
use distributed_traffic_serv.BookingService.Service.{is_cancelled, cancel_rows}
use distributed_traffic_serv.BookingService.Capacity.{release_segment}
use distributed_traffic_serv.BookingService.Peer.{peer_release}

-- The three tests on a status that the queries make.
unfoldable pub is_confirmed_status : BookingStatus → Bool
is_confirmed_status confirmed = true
is_confirmed_status _ = false

unfoldable pub is_in_progress : BookingStatus → Bool
is_in_progress saga_in_progress = true
is_in_progress _ = false

-- `status IN ('CANCELLED', 'REJECTED')`.
unfoldable pub is_over : BookingStatus → Bool
is_over cancelled = true
is_over rejected = true
is_over _ = false

-- `now - 60 s` and `now - 2 min`, of the clock of the pass.
pub record Cutoffs : Type 0 where
  pub orphan : ℕ
  pub dangling : ℕ

-- `UPDATE public.bookings SET status = … WHERE id = :bid`.
abbrev pub set_status : BookingStatus → String → Db → Db
set_status status id db = record db {
  bookings = map (λ b. if b.id == id then record b { status = status } else b) db.bookings;
}

-- The transaction on an orphan.
unfoldable pub reject_orphan : String → Db → Db
unfolding peer_release
reject_orphan id db =
    let released : Db = peer_release id db in
    set_status rejected id
      (record released { segment_reservations = cancel_rows id released.segment_reservations })

-- The transaction on a confirmed booking without reservations.
unfoldable pub cancel_dangling : String → Db → Db
unfolding peer_release
cancel_dangling id db = set_status cancelled id (peer_release id db)

-- A transaction for each of the rows that a query has found.
unfoldable pub each : (String → Db → Db) → List String → Db → Db
each f [] db = db
each f (id ∷ rest) db = each f rest (f id db)

abbrev pub ids : List Booking → List String
ids bookings = map (λ b. b.id) bookings

unfoldable pub orphans : ℕ → Db → List String
unfolding filter is_in_progress
orphans cutoff db =
    ids (filter (λ b. is_in_progress b.status && ltb b.created_at cutoff) db.bookings)

-- `NOT EXISTS (SELECT 1 FROM public.segment_reservations …)`.
unfoldable pub has_segment : Db → Booking → Bool
unfolding any is_confirmed_status
has_segment db b =
    any (λ r. r.booking_id == b.id && is_confirmed_status r.status) db.segment_reservations

unfoldable pub dangling : ℕ → Db → List String
unfolding filter has_segment is_confirmed_status
dangling cutoff db = ids (
    filter (λ b. is_confirmed_status b.status && ltb b.created_at cutoff && not (has_segment db b))
      db.bookings)

-- The reservations of a schema that stand for a booking that is over.
unfoldable pub lingers : Schema → List Booking → Reservation → Bool
unfolding any is_over is_cancelled
lingers schema bookings r =
    r.schema == schema
    && not (is_cancelled r.status)
    && any (λ b. b.id == r.booking_id && is_over b.status) bookings

-- `SELECT DISTINCT`, of the ids that were found. An id stands here as often as it was found; to
-- release its reservations again changes nothing.
unfoldable pub lingering : Schema → Db → List String
unfolding filter lingers
lingering schema db = map (λ r. r.booking_id) (filter (lingers schema db.bookings) db.reservations)

-- Case B, of one schema.
unfoldable pub clean : Schema → Db → Db
unfolding each lingering release_segment
clean schema db = each (release_segment schema) (lingering schema db) db

-- `_reconcile_orphaned_sagas`.
unfoldable pub reconcile_orphaned_sagas : ℕ → Db → Db
unfolding each orphans reject_orphan
reconcile_orphaned_sagas cutoff db = each reject_orphan (orphans cutoff db) db

-- `_reconcile_partition_inconsistencies`.
unfoldable pub reconcile_partition_inconsistencies : ℕ → Db → Db
unfolding each dangling cancel_dangling clean
reconcile_partition_inconsistencies cutoff db =
    clean region_france
      (clean region_uk (clean region_ireland (each cancel_dangling (dangling cutoff db) db)))

-- `run_reconciliation_once`.
unfoldable pub run_reconciliation_once : Cutoffs → Db → Db
unfolding reconcile_orphaned_sagas reconcile_partition_inconsistencies
run_reconciliation_once cutoffs db =
    reconcile_partition_inconsistencies cutoffs.dangling
      (reconcile_orphaned_sagas cutoffs.orphan db)
