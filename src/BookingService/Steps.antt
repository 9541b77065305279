-- ===== src/BookingService/Steps.antt =====
-- Each step of a booking keeps the bound of Bounds on both nodes.
use distributed_traffic_serv.Base.{
  ℕ, ◌≡◌, refl, String, Option, none, some, List, [], ◌∷◌, All, Bool-cases, Option-cases, inl, inr,
  ◌==◌, nat_eq, not, ◌&&◌,
}
use distributed_traffic_serv.BookingService.Store.{Schema, Db, floor_hour}
use distributed_traffic_serv.BookingService.Capacity.{Capacity, check_capacity, reserve_segment}
use distributed_traffic_serv.BookingService.Peer.{
  Lock, acquired, held, redis_down, PeerReserveRequest, peer_row, refuses, is_full, reserve_within,
  reserve_in, peer_reserve, peer_release,
}
use distributed_traffic_serv.BookingService.Saga.{
  RouteSegment, Config, Link, answered, answer_lost, request_lost, answer_broken, SagaError, Env,
  Job, Progress, local_row, nothing_reserved, is_local, written, reserve_local, peer_request, heard,
  reserve_remote, reserve_known, reserve_one, reserve_all, compensate_one, compensate,
  roll_back_peer, saga_failed, saga_reserved, execute_booking_saga, is_unavailable, Ended,
  database_refused, broker_down,
}
use distributed_traffic_serv.BookingService.Bounds.{
  IsWithin, release_segment-IsWithin, reserve_segment-IsWithin,
}

reserve_within-IsWithin :
    (schema : Schema) (req : PeerReserveRequest) (db : Db) (cap : Option Capacity)
    → floor_hour req.slot_start ≡ req.slot_start
    → check_capacity db schema req.segment_id req.slot_start ≡ cap
    → IsWithin db
    → IsWithin (reserve_within schema req db cap).1
unfolding reserve_within
reserve_within-IsWithin schema req db none aligned checked h = h
reserve_within-IsWithin schema req db (some cap) aligned checked h =
    elim (Bool-cases (is_full cap)) [
      | inl full ↦ rw full h
      | inr room ↦ rw room (elim (Option-cases (reserve_segment (peer_row schema req) db)) [
        | inl e ↦ rw e h
        | inr (db', e) ↦
            rw e
              (reserve_segment-IsWithin (peer_row schema req) db db' aligned (rw checked room) e h)
      ])
    ]

reserve_in-IsWithin :
    (lock : Lock) (req : PeerReserveRequest) (db : Db) (schema : Option Schema)
    → floor_hour req.slot_start ≡ req.slot_start
    → IsWithin db
    → IsWithin (reserve_in lock req db schema).1
unfolding reserve_in
reserve_in-IsWithin lock req db none aligned h = h
reserve_in-IsWithin acquired req db (some schema) aligned h =
    reserve_within-IsWithin schema req db _ aligned refl h
reserve_in-IsWithin held req db (some schema) aligned h = h
reserve_in-IsWithin redis_down req db (some schema) aligned h = h

pub peer_reserve-IsWithin :
    (lock : Lock) (req : PeerReserveRequest) (db : Db)
    → floor_hour req.slot_start ≡ req.slot_start
    → IsWithin db
    → IsWithin (peer_reserve lock req db).1
unfolding peer_reserve
peer_reserve-IsWithin lock req db aligned h = reserve_in-IsWithin lock req db _ aligned h

pub peer_release-IsWithin : (bid : String) (db : Db) → IsWithin db → IsWithin (peer_release bid db)
unfolding peer_release
peer_release-IsWithin bid db h =
    release_segment-IsWithin _ bid _
      (release_segment-IsWithin _ bid _ (release_segment-IsWithin _ bid db h))

-- Both nodes of a loop.
abbrev BothWithin : Progress → Type 0
BothWithin p = IsWithin p.here × IsWithin p.there

abbrev pub IsAligned : RouteSegment → Type 0
IsAligned seg = floor_hour seg.slot_start ≡ seg.slot_start

-- The bound asks for the two tables that it is about, and for nothing else of a database.
pub same_tables :
    (db db' : Db)
    → db'.reservations ≡ db.reservations
    → db'.road_segments ≡ db.road_segments
    → IsWithin db
    → IsWithin db'
same_tables db db' r s h = record {
  within = λ schema id slot. rw r (rw s (h.within schema id slot));
}

reserve_local-BothWithin :
    (lock : Lock) (job : Job) (schema : Schema) (seg : RouteSegment) (p : Progress)
    → IsAligned seg
    → BothWithin p
    → BothWithin (reserve_local lock job schema seg p).0
unfolding reserve_local written
reserve_local-BothWithin held job schema seg p aligned h = h
reserve_local-BothWithin redis_down job schema seg p aligned h = h
reserve_local-BothWithin acquired job schema seg p aligned (h, k) =
    elim (Bool-cases (refuses (check_capacity p.here schema seg.segment_id seg.slot_start))) [
      | inl full ↦ rw full (h, k)
      | inr room ↦
          rw room (elim (Option-cases (reserve_segment (local_row job schema seg) p.here)) [
            | inl e ↦ rw e (h, k)
            | inr (db', e) ↦ rw e (
              same_tables db' _ refl refl
                  (reserve_segment-IsWithin (local_row job schema seg) p.here db' aligned room e h),
              k,
            )
          ])
    ]

heard-BothWithin :
    (seg : RouteSegment) (answer : ℕ × Db) (p : Progress)
    → IsWithin p.here
    → IsWithin answer.1
    → BothWithin (heard seg answer p).0
unfolding heard
heard-BothWithin seg (code, there) p h k = elim (Bool-cases (code == 409)) [
  | inl e ↦ rw e (h, k)
  | inr e ↦ rw e (elim (Bool-cases (code == 201)) [ inl e₂ ↦ rw e₂ (h, k) | inr e₂ ↦ rw e₂ (h, k) ])
]

reserve_remote-BothWithin :
    (link : Link) (lock : Lock) (job : Job) (seg : RouteSegment) (p : Progress)
    → IsAligned seg
    → BothWithin p
    → BothWithin (reserve_remote link lock job seg p).0
unfolding reserve_remote
reserve_remote-BothWithin request_lost lock job seg p aligned h = h
reserve_remote-BothWithin answer_lost lock job seg p aligned (h, k) =
    (h, peer_reserve-IsWithin lock (peer_request job seg) p.there aligned k)
reserve_remote-BothWithin answer_broken lock job seg p aligned (h, k) =
    (h, peer_reserve-IsWithin lock (peer_request job seg) p.there aligned k)
reserve_remote-BothWithin answered lock job seg p aligned (h, k) =
    heard-BothWithin seg (peer_reserve lock (peer_request job seg) p.there) p h
      (peer_reserve-IsWithin lock (peer_request job seg) p.there aligned k)

abbrev pub EndsWithin : Ended → Type 0
EndsWithin ended = IsWithin ended.here × IsWithin ended.there

module _ (config : Config) (env : Env) (job : Job) where
  reserve_known-BothWithin :
      (seg : RouteSegment) (schema : Option Schema) (p : Progress)
      → IsAligned seg
      → BothWithin p
      → BothWithin (reserve_known config env job seg schema p).0
  unfolding reserve_known
  reserve_known-BothWithin seg none p aligned h = h
  reserve_known-BothWithin seg (some schema) p aligned h =
      elim (Bool-cases (is_local config seg.region)) [
        | inl e ↦ rw e (reserve_local-BothWithin (env.lock seg) job schema seg p aligned h)
        | inr e ↦
            rw e (reserve_remote-BothWithin (env.link seg) (env.peer_lock seg) job seg p aligned h)
      ]

  reserve_one-BothWithin :
      (seg : RouteSegment) (p : Progress)
      → IsAligned seg
      → BothWithin p
      → BothWithin (reserve_one config env job seg p).0
  unfolding reserve_one
  reserve_one-BothWithin seg p aligned h = reserve_known-BothWithin seg _ p aligned h

  reserve_all-BothWithin :
      (route : List RouteSegment) (p : Progress)
      → All IsAligned route
      → BothWithin p
      → BothWithin (reserve_all config env job route p).0
  unfolding reserve_all
  reserve_all-BothWithin [] p aligned h = h
  reserve_all-BothWithin (seg ∷ rest) p (a, aligned) h =
      let k : BothWithin (reserve_one config env job seg p).0 = reserve_one-BothWithin seg p a h in
      elim (Option-cases (reserve_one config env job seg p).1) [
        | inl e ↦ rw (e, reserve_all) (reserve_all-BothWithin rest _ aligned k)
        | inr (error, e) ↦ rw (e, reserve_all) k
      ]

  compensate_one-IsWithin :
      (seg : RouteSegment) (schema : Option Schema) (db : Db)
      → IsWithin db
      → IsWithin (compensate_one config env job seg schema db)
  unfolding compensate_one
  compensate_one-IsWithin seg none db h = h
  compensate_one-IsWithin seg (some schema) db h =
      elim (Bool-cases (is_local config seg.region && env.releases seg)) [
        | inl e ↦ rw e (release_segment-IsWithin schema job.booking_id db h)
        | inr e ↦ rw e h
      ]

  compensate-IsWithin :
      (reserved : List RouteSegment) (db : Db)
      → IsWithin db
      → IsWithin (compensate config env job reserved db)
  unfolding compensate
  compensate-IsWithin [] db h = h
  compensate-IsWithin (seg ∷ rest) db h =
      compensate-IsWithin rest _ (compensate_one-IsWithin seg _ db h)

  roll_back_peer-IsWithin :
      (link : Link) (there : Db)
      → IsWithin there
      → IsWithin (roll_back_peer config env job link there)
  unfolding roll_back_peer
  roll_back_peer-IsWithin request_lost there h = h
  roll_back_peer-IsWithin answer_lost there h = peer_release-IsWithin job.booking_id there h
  roll_back_peer-IsWithin answer_broken there h = peer_release-IsWithin job.booking_id there h
  roll_back_peer-IsWithin answered there h = peer_release-IsWithin job.booking_id there h

  saga_failed-EndsWithin :
      (e : SagaError) (before : Db) (p : Progress)
      → IsWithin before
      → IsWithin p.there
      → EndsWithin (saga_failed config env job e before p)
  unfolding saga_failed
  saga_failed-EndsWithin e before p h k = (
    compensate-IsWithin p.reserved before h,
    elim (Bool-cases (p.peer_reserved && config.has_peer && not (is_unavailable e))) [
      | inl t ↦ rw t (roll_back_peer-IsWithin env.release_link p.there k)
      | inr t ↦ rw t k
    ],
  )

  saga_reserved-EndsWithin :
      (before : Db) (p : Progress) (error : Option SagaError)
      → IsWithin before
      → BothWithin p
      → EndsWithin (saga_reserved config env job before p error)
  unfolding saga_reserved
  saga_reserved-EndsWithin before p (some e) h (k, l) = saga_failed-EndsWithin e before p h l
  saga_reserved-EndsWithin before p none h (k, l) = elim (Bool-cases env.commits) [
    | inr e ↦ rw e (saga_failed-EndsWithin database_refused before p h l)
    | inl e ↦ rw e (elim (Bool-cases env.takes_confirmed) [
      | inr e₂ ↦ rw e₂ (saga_failed-EndsWithin broker_down p.here p k l)
      | inl e₂ ↦ rw e₂ (k, l)
    ])
  ]

  pub execute_booking_saga-EndsWithin :
      (route : List RouteSegment) (before here there : Db)
      → All IsAligned route
      → IsWithin before
      → IsWithin here
      → IsWithin there
      → EndsWithin (execute_booking_saga config env job route before here there)
  unfolding execute_booking_saga
  execute_booking_saga-EndsWithin route before here there aligned h k l =
      let start : Progress = nothing_reserved here there in
      saga_reserved-EndsWithin before (reserve_all config env job route start).0 _ h
        (reserve_all-BothWithin route start aligned (k, l))
