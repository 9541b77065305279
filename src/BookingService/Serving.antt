-- ===== src/BookingService/Serving.antt =====
-- Everything that two nodes serve, one transaction after another.
use distributed_traffic_serv.Base.{
  ℕ, ◌≡◌, refl, String, Bool, true, false, Option, none, some, List, Option-cases, inl, inr,
  Bool-cases, ◌==◌, string_eq,
}
use distributed_traffic_serv.BookingService.Store.{
  Schema, region_ireland, region_uk, region_france, Booking, Db, floor_hour,
}
use distributed_traffic_serv.BookingService.Capacity.{release_segment}
use distributed_traffic_serv.BookingService.Peer.{
  Lock, PeerReserveRequest, peer_reserve, peer_release,
}
use distributed_traffic_serv.BookingService.Saga.{Config, Env, Job, no_route, no_roads, Ended}
use distributed_traffic_serv.BookingService.Service.{
  Route, found, not_found, empty, new_booking, put, settle_error, settle_booking,
  ended_without_route, create_booking, is_cancelled, cancel_found, cancel_booking, find_booking,
}
use distributed_traffic_serv.BookingService.Reconciler.{
  Cutoffs, reject_orphan, cancel_dangling, orphans, dangling, lingering, clean,
  reconcile_orphaned_sagas, reconcile_partition_inconsistencies, run_reconciliation_once,
}
use distributed_traffic_serv.BookingService.Routing.{SegmentEdge, resolve_route}
use distributed_traffic_serv.BookingService.Timetable.{AlignedRoute, resolve_route-AlignedRoute}
use distributed_traffic_serv.BookingService.Bounds.{IsWithin, release_segment-IsWithin}
use distributed_traffic_serv.BookingService.Passes.{each-keeps}
use distributed_traffic_serv.BookingService.Steps.{
  same_tables, peer_reserve-IsWithin, peer_release-IsWithin, EndsWithin,
  execute_booking_saga-EndsWithin,
}

-- The pairs of databases that two nodes come to. What either node serves is written for the first,
-- and `swapped` makes it the other's turn.
pub data Served : Db → Db → Db → Db → Type 0 where
  begun : {a b : Db} → Served a b a b
  swapped : {a b here there : Db} → Served a b here there → Served b a there here
  created :
      {a b here there : Db} (config : Config) (env : Env) (job : Job) (now : ℕ) (has_edges : Bool)
      (path : List SegmentEdge) (approach_minutes : ℕ)
      → Served a b here there
      → Served a b
          (create_booking config env job now
            (resolve_route has_edges path approach_minutes job.departure_time)
            here
            there).here
          (create_booking config env job now
            (resolve_route has_edges path approach_minutes job.departure_time)
            here
            there).there
  withdrawn :
      {a b here there : Db} (id driver_id : String)
      → Served a b here there
      → Served a b (cancel_booking id driver_id here).0 there
  asked :
      {a b here there : Db} (lock : Lock) (req : PeerReserveRequest)
      → floor_hour req.slot_start ≡ req.slot_start
      → Served a b here there
      → Served a b (peer_reserve lock req here).1 there
  released :
      {a b here there : Db} (id : String)
      → Served a b here there
      → Served a b (peer_release id here) there
  reconciled :
      {a b here there : Db} (cutoffs : Cutoffs)
      → Served a b here there
      → Served a b (run_reconciliation_once cutoffs here) there

settle_booking-IsWithin :
    (settles : Bool) (minutes : ℕ) (b : Booking) (ended : Ended)
    → EndsWithin ended
    → IsWithin (settle_booking settles minutes b ended).here
      × IsWithin (settle_booking settles minutes b ended).there
unfolding settle_booking settle_error
settle_booking-IsWithin true minutes b ended (h, k) = elim (Option-cases ended.error) [
  | inl e ↦ rw e (same_tables ended.here _ refl refl h, k)
  | inr (error, e) ↦ rw e (same_tables ended.here _ refl refl h, k)
]
settle_booking-IsWithin false minutes b ended (h, k) = elim (Option-cases ended.error) [
  | inl e ↦ rw e (same_tables ended.here _ refl refl h, k)
  | inr (error, e) ↦ rw e (same_tables ended.here _ refl refl h, k)
]

create_booking-IsWithin :
    (config : Config) (env : Env) (job : Job) (now : ℕ) (route : Route) (here there : Db)
    → AlignedRoute route
    → IsWithin here
    → IsWithin there
    → IsWithin (create_booking config env job now route here there).here
      × IsWithin (create_booking config env job now route here there).there
unfolding create_booking
create_booking-IsWithin config env job now (found segments minutes) here there aligned h k =
    settle_booking-IsWithin env.settles minutes (new_booking job now) _ (
      execute_booking_saga-EndsWithin config env job segments here (put (new_booking job now) here)
        there aligned h (same_tables here _ refl refl h) k)
create_booking-IsWithin config env job now not_found here there aligned h k =
    settle_booking-IsWithin env.settles 0 (new_booking job now)
      (ended_without_route no_route here there) (h, k)
create_booking-IsWithin config env job now empty here there aligned h k =
    settle_booking-IsWithin env.settles 0 (new_booking job now)
      (ended_without_route no_roads here there) (h, k)

cancel_found-IsWithin :
    (driver_id : String) (db : Db) (b : Option Booking)
    → IsWithin db
    → IsWithin (cancel_found driver_id db b).0
unfolding cancel_found
cancel_found-IsWithin driver_id db none h = h
cancel_found-IsWithin driver_id db (some b) h = elim (Bool-cases (b.driver_id == driver_id)) [
  | inr e ↦ rw e h
  | inl e ↦ rw e (elim (Bool-cases (is_cancelled b.status)) [
    | inl e₂ ↦ rw e₂ h
    | inr e₂ ↦ rw e₂ (same_tables db _ refl refl h)
  ])
]

clean-IsWithin : (schema : Schema) (db : Db) → IsWithin db → IsWithin (clean schema db)
unfolding clean
clean-IsWithin schema db h =
    each-keeps IsWithin (release_segment schema) (release_segment-IsWithin schema)
      (lingering schema db) db h

run_reconciliation_once-IsWithin :
    (cutoffs : Cutoffs) (db : Db) → IsWithin db → IsWithin (run_reconciliation_once cutoffs db)
unfolding run_reconciliation_once reconcile_orphaned_sagas reconcile_partition_inconsistencies
    reject_orphan cancel_dangling
run_reconciliation_once-IsWithin cutoffs db h =
    let fixed : IsWithin (reconcile_orphaned_sagas cutoffs.orphan db) =
      each-keeps IsWithin reject_orphan
        (λ id d k. same_tables (peer_release id d) _ refl refl (peer_release-IsWithin id d k))
        (orphans cutoffs.orphan db) db h in
    let next : Db = reconcile_orphaned_sagas cutoffs.orphan db in
    clean-IsWithin region_france _ (
      clean-IsWithin region_uk _ (
        clean-IsWithin region_ireland _ (
          each-keeps IsWithin cancel_dangling
            (λ id d k. same_tables (peer_release id d) _ refl refl (peer_release-IsWithin id d k))
            (dangling cutoffs.dangling next) next fixed)))

-- Where both nodes begin within their capacities, both stay within them whatever they serve one
-- after another, and whatever locks, network, database and broker do: bookings that succeed, fail
-- and are compensated, cancellations, calls of the peer for slots that begin on the hour, and passes
-- of the reconciler.
pub Served-IsWithin :
    {a b here there : Db}
    → IsWithin a
    → IsWithin b
    → Served a b here there
    → IsWithin here × IsWithin there
unfolding cancel_booking
Served-IsWithin h k begun = (h, k)
Served-IsWithin h k (swapped s) = let (l, m) = Served-IsWithin k h s in (m, l)
Served-IsWithin h k (created config env job now has_edges path approach_minutes s) =
    let (l, m) = Served-IsWithin h k s in
    create_booking-IsWithin config env job now
      (resolve_route has_edges path approach_minutes job.departure_time) _ _
      (resolve_route-AlignedRoute has_edges path approach_minutes job.departure_time) l m
Served-IsWithin h k (withdrawn {here = here} id driver_id s) =
    let (l, m) = Served-IsWithin h k s in
    (cancel_found-IsWithin driver_id here (find_booking id here.bookings) l, m)
Served-IsWithin h k (asked lock req aligned s) =
    let (l, m) = Served-IsWithin h k s in (peer_reserve-IsWithin lock req _ aligned l, m)
Served-IsWithin h k (released id s) =
    let (l, m) = Served-IsWithin h k s in (peer_release-IsWithin id _ l, m)
Served-IsWithin h k (reconciled cutoffs s) =
    let (l, m) = Served-IsWithin h k s in (run_reconciliation_once-IsWithin cutoffs _ l, m)
