-- ===== src/BookingService/Availability.antt =====
-- Where every node answers and has room for the route, a booking is confirmed.
use distributed_traffic_serv.Base.{
  ℕ, suc, ◌≡◌, refl, sym, ap, ◌∙◌, true, none, some, List, [], ◌∷◌, All, All-imp, length,
  Bool-cases, inl, inr, if◌then◌else◌, string_eq, nat_eq,
}
use mathlib.Core.Path.{subst}
use distributed_traffic_serv.BookingService.Store.{Schema, schema_eq, schema_of, Db}
use distributed_traffic_serv.BookingService.Peer.{acquired}
use distributed_traffic_serv.BookingService.Saga.{
  RouteSegment, Config, answered, Env, Job, Progress, nothing_reserved, is_local, reserve_known,
  reserve_one, reserve_all, saga_reserved, execute_booking_saga,
}
use distributed_traffic_serv.BookingService.Service.{
  found, new_booking, put, settle_booking, create_booking,
}
use distributed_traffic_serv.BookingService.Refusal.{settle_booking-error}
use distributed_traffic_serv.BookingService.Commitment.{reserve_one-Booked, goes_on}
use distributed_traffic_serv.BookingService.Room.{
  Fits, Grown, HasRoom, reserve_local-stored, reserve_remote-stored, Grown-book, HasRoom-Grown,
  HasRoom-put,
}

-- Every lock is acquired, every call of the peer is answered, the commits and the refresh succeed, and
-- the broker takes the event.
pub record AllAnswers (env : Env) : Type 0 where
  pub locks : (seg : RouteSegment) → env.lock seg ≡ acquired
  pub links : (seg : RouteSegment) → env.link seg ≡ answered
  pub peer_locks : (seg : RouteSegment) → env.peer_lock seg ≡ acquired
  pub committed : env.commits ≡ true
  pub taken : env.takes_confirmed ≡ true
  pub settled : env.settles ≡ true

module _ (config : Config) (env : Env) (job : Job) (answers : AllAnswers env) where
  reserve_known-stored :
      (n : ℕ) (schema : Schema) (seg : RouteSegment) (p : Progress)
      → schema_of seg.region ≡ some schema
      → Fits (suc n) (if is_local config seg.region then p.here else p.there) schema seg
      → (reserve_known config env job seg (some schema) p).1 ≡ none
  unfolding reserve_known
  reserve_known-stored n schema seg p known fits = elim (Bool-cases (is_local config seg.region)) [
    | inl e ↦ rw e (rw (answers.locks seg) (reserve_local-stored n job schema seg p (rw e at fits)))
    | inr e ↦ rw e (
        rw (answers.links seg) (
          rw (answers.peer_locks seg)
            (reserve_remote-stored n job schema seg p known (rw e at fits))))
  ]

  reserve_one-stored :
      (n : ℕ) (seg : RouteSegment) (p : Progress)
      → HasRoom config (suc n) (p.here, p.there) seg
      → (reserve_one config env job seg p).1 ≡ none
  unfolding reserve_one
  reserve_one-stored n seg p (schema, known, fits) =
      subst (λ sc. (reserve_known config env job seg sc p).1 ≡ none) (sym known)
        (reserve_known-stored n schema seg p known fits)

  reserve_all-nil : (p : Progress) → (reserve_all config env job [] p).1 ≡ none
  unfolding reserve_all
  reserve_all-nil p = refl

  reserve_all-stored :
      (route : List RouteSegment) (p : Progress)
      → All (HasRoom config (length route) (p.here, p.there)) route
      → (reserve_all config env job route p).1 ≡ none
  reserve_all-stored [] p h = reserve_all-nil p
  reserve_all-stored (seg ∷ rest) p (one, more) =
      let e : (reserve_one config env job seg p).1 ≡ none =
        reserve_one-stored (length rest) seg p one in
      let next : Progress = (reserve_one config env job seg p).0 in
      let (known, same, reserved) = reserve_one-Booked config env job seg p e in
      let (here, there) = Grown-book config job seg (schema_of seg.region) p.here p.there in
      rw (goes_on config env job seg rest p e) (
        reserve_all-stored rest next (
          All-imp
            (HasRoom-Grown config (length rest) (p.here, p.there) (next.here, next.there)
              (subst (λ dbs. Grown p.here dbs.0) (sym same) here)
              (subst (λ dbs. Grown p.there dbs.1) (sym same) there))
            rest more))

  execute_booking_saga-stored :
      (route : List RouteSegment) (before here there : Db)
      → All (HasRoom config (length route) (here, there)) route
      → (execute_booking_saga config env job route before here there).error ≡ none
  unfolding execute_booking_saga saga_reserved
  execute_booking_saga-stored route before here there room =
      rw (reserve_all-stored route (nothing_reserved here there) room)
        (rw answers.committed (rw answers.taken refl))

  -- Where all that is called answers, and each segment of the route stands in a known region whose
  -- node has room for as many reservations as the route has segments, `create_booking` raises
  -- nothing.
  pub create_booking-succeeds :
      (now minutes : ℕ) (route : List RouteSegment) (here there : Db)
      → All (HasRoom config (length route) (here, there)) route
      → (create_booking config env job now (found route minutes) here there).error ≡ none
  unfolding create_booking
  create_booking-succeeds now minutes route here there room =
      ap
        (λ s.
          (settle_booking s minutes (new_booking job now) (
            execute_booking_saga config env job route here (put (new_booking job now) here)
              there)).error)
        answers.settled
      ∙ settle_booking-error minutes (new_booking job now) _
      ∙ execute_booking_saga-stored route here (put (new_booking job now) here) there
          (All-imp (HasRoom-put config (length route) (new_booking job now) here there) route room)
