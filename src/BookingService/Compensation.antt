-- ===== src/BookingService/Compensation.antt =====
-- What the compensating transactions give back of what the loop has taken.
use distributed_traffic_serv.Base.{
  ◌≡◌, ◌≢◌, refl, Bool, true, not, ◌&&◌, Option, none, some, List, [], ◌∷◌, any, Bool-cases, inl,
  inr, ◌==◌, nat_eq, string_eq, arith,
}
use distributed_traffic_serv.BookingService.Store.{Schema, schema_eq, schema_of, Db}
use distributed_traffic_serv.BookingService.Capacity.{release_segment}
use distributed_traffic_serv.BookingService.Saga.{
  RouteSegment, Config, Link, answered, answer_lost, request_lost, answer_broken, Env, Job,
  is_local, compensate_one, compensate, roll_back_peer,
}
use distributed_traffic_serv.BookingService.Holding.{
  HoldsOnly, HoldsNone, HoldsOnly-imp, release-HoldsOnly, peer_release-HoldsNone,
}
use distributed_traffic_serv.BookingService.Tracking.{is_schema, covers, covered}

module _ (config : Config) (env : Env) (job : Job) where
  compensate_one-HoldsOnly :
      (kind : Schema → Bool) (seg : RouteSegment) (schema : Option Schema) (db : Db)
      → env.releases seg ≡ true
      → HoldsOnly kind job.booking_id db.reservations
      → HoldsOnly
          (λ s. kind s && not (is_local config seg.region && is_schema schema s))
          job.booking_id
          (compensate_one config env job seg schema db).reservations
  unfolding compensate_one release_segment
  compensate_one-HoldsOnly kind seg none db releases h =
      HoldsOnly-imp kind _ (λ s k. ground arith) job.booking_id db.reservations h
  compensate_one-HoldsOnly kind seg (some schema) db releases h =
      elim (Bool-cases (is_local config seg.region)) [
        | inl e ↦ rw e (
            rw releases (
              HoldsOnly-imp (λ s. kind s && not (s == schema)) _ (λ s k. ground arith)
                job.booking_id _ (release-HoldsOnly kind schema job.booking_id db.reservations h)))
        | inr e ↦ rw e (HoldsOnly-imp kind _ (λ s k. ground arith) job.booking_id db.reservations h)
      ]

  pub compensate-HoldsOnly :
      (kind : Schema → Bool) (reserved : List RouteSegment) (db : Db)
      → ((seg : RouteSegment) → env.releases seg ≡ true)
      → HoldsOnly kind job.booking_id db.reservations
      → HoldsOnly
          (λ s. kind s && not (covered config reserved s))
          job.booking_id
          (compensate config env job reserved db).reservations
  unfolding compensate any
  compensate-HoldsOnly kind [] db releases h =
      HoldsOnly-imp kind _ (λ s k. ground arith) job.booking_id db.reservations h
  compensate-HoldsOnly kind (seg ∷ rest) db releases h =
      HoldsOnly-imp (λ s. (kind s && not (covers config s seg)) && not (covered config rest s)) _
        (λ s k. ground arith) job.booking_id _
        (compensate-HoldsOnly (λ s. kind s && not (covers config s seg)) rest _ releases
          (compensate_one-HoldsOnly kind seg (schema_of seg.region) db (releases seg) h))

  pub roll_back_peer-HoldsNone :
      (link : Link) (there : Db)
      → link ≢ request_lost
      → HoldsNone job.booking_id (roll_back_peer config env job link there)
  unfolding roll_back_peer
  roll_back_peer-HoldsNone request_lost there h = absurd (h refl)
  roll_back_peer-HoldsNone answer_lost there h = peer_release-HoldsNone job.booking_id there
  roll_back_peer-HoldsNone answer_broken there h = peer_release-HoldsNone job.booking_id there
  roll_back_peer-HoldsNone answered there h = peer_release-HoldsNone job.booking_id there
