-- ===== src/BookingService/Confirmation.antt =====
-- A booking that is confirmed has every reservation of its route.
use mathlib.Core.Path.{subst}
use distributed_traffic_serv.Base.{
  ℕ, ◌≡◌, ◌≢◌, refl, sym, ap, true, Option, none, some, List, [], ◌∷◌, All, Bool-cases, inl, inr,
  is_some, arith,
}
use distributed_traffic_serv.Api.Bookings.{confirmed}
use distributed_traffic_serv.BookingService.Store.{schema_of, Db, Booking}
use distributed_traffic_serv.BookingService.Saga.{
  RouteSegment, Config, SagaError, Env, Job, Progress, nothing_reserved, reserve_all,
  database_refused, broker_down, confirmed_event, saga_failed, saga_reserved, execute_booking_saga,
  Ended,
}
use distributed_traffic_serv.BookingService.Service.{
  found, new_booking, put, find_booking, booked_minutes, Created, settle_error, settle_booking,
  create_booking,
}
use distributed_traffic_serv.BookingService.Atomic.{book_route}
use distributed_traffic_serv.BookingService.Commitment.{reserve_all-book_route}
use distributed_traffic_serv.BookingService.Refusal.{find_booking-put, settle_booking-none}

-- A saga that raised nothing has made the transaction, and told of every segment.
abbrev pub SagaDone : Config → Env → Job → List RouteSegment → (here there : Db) → Ended → Type 0
SagaDone config env job route here there ended =
    All (λ seg. is_some (schema_of seg.region) ≡ true) route
    × ((ended.here, ended.there) ≡ book_route config job route (here, there))
    × (ended.events ≡ confirmed_event config env job route ∷ [])

-- The booking as it is confirmed.
abbrev pub confirmed_booking : Job → (now minutes : ℕ) → Booking
confirmed_booking job now minutes = record (new_booking job now) {
  status = confirmed;
  estimated_duration_minutes = some (booked_minutes minutes);
}

-- Both databases are those of the transaction on the whole route, with the booking stored as
-- confirmed; each region of the route is known, and the one event names them all in order.
abbrev pub IsConfirmed :
    Config → Env → Job → (now : ℕ) → List RouteSegment → ℕ → (here there : Db) → Created → Type 0
IsConfirmed config env job now route minutes here there made =
    All (λ seg. is_some (schema_of seg.region) ≡ true) route
    × (made.here
        ≡ put (confirmed_booking job now minutes)
            (book_route config job route (put (new_booking job now) here, there)).0)
    × (made.there ≡ (book_route config job route (put (new_booking job now) here, there)).1)
    × (find_booking job.booking_id made.here.bookings ≡ some (confirmed_booking job now minutes))
    × (made.events ≡ confirmed_event config env job route ∷ [])

settle_booking-IsConfirmed :
    (config : Config) (env : Env) (job : Job) (now : ℕ) (route : List RouteSegment) (minutes : ℕ)
    (here there : Db) (ended : Ended)
    → ended.error ≡ none
    → SagaDone config env job route (put (new_booking job now) here) there ended
    → IsConfirmed config env job now route minutes here there
        (settle_booking true minutes (new_booking job now) ended)
unfolding settle_booking settle_error
settle_booking-IsConfirmed config env job now route minutes here there ended none_
      (known, dbs, events) =
    rw none_ (
      known,
      ap (λ x. put (confirmed_booking job now minutes) x.0) dbs,
      ap (λ x. x.1) dbs,
      find_booking-put (confirmed_booking job now minutes) ended.here.bookings,
      events,
    )

module _ (config : Config) (env : Env) (job : Job) where
  saga_failed-raises :
      (e : SagaError) (committed : Db) (p : Progress)
      → (saga_failed config env job e committed p).error ≢ none
  unfolding saga_failed
  saga_failed-raises e committed p h = elim (Bool-cases env.takes_failed) [
    | inl t ↦ absurd (ground (arith, h, t))
    | inr t ↦ absurd (ground (arith, h, t))
  ]

  saga_reserved-done :
      (before : Db) (p : Progress) (error : Option SagaError)
      → (saga_reserved config env job before p error).error ≡ none
      → (error ≡ none)
        × (saga_reserved config env job before p error ≡ record {
          here = p.here;
          there = p.there;
          error = none;
          events = confirmed_event config env job p.reserved ∷ [];
        })
  unfolding saga_reserved
  saga_reserved-done before p (some e) h = absurd (saga_failed-raises e before p h)
  saga_reserved-done before p none h = elim (Bool-cases env.commits) [
    | inr c ↦ absurd (saga_failed-raises database_refused before p (ground (arith, h, c)))
    | inl c ↦ elim (Bool-cases env.takes_confirmed) [
      | inr t ↦ absurd (saga_failed-raises broker_down p.here p (ground (arith, h, c, t)))
      | inl t ↦ rw c (rw t (refl, refl))
    ]
  ]

  pub execute_booking_saga-done :
      (route : List RouteSegment) (before here there : Db)
      → (execute_booking_saga config env job route before here there).error ≡ none
      → SagaDone config env job route here there
          (execute_booking_saga config env job route before here there)
  unfolding execute_booking_saga
  execute_booking_saga-done route before here there h =
      let start : Progress = nothing_reserved here there in
      let p : Progress = (reserve_all config env job route start).0 in
      let (raised_none, same) =
        saga_reserved-done before p (reserve_all config env job route start).1 h in
      let (known, dbs, reserved) = reserve_all-book_route config env job route start raised_none in
      rw same (known, dbs, ap (λ r. confirmed_event config env job r ∷ []) reserved)

  -- Where `create_booking` raises nothing on a route: both databases are those of the transaction on
  -- every segment of it, with the booking stored as confirmed, with its minutes; every region of the
  -- route is known; and the one event that is published names the regions of all segments.
  pub create_booking-IsConfirmed :
      (now minutes : ℕ) (route : List RouteSegment) (here there : Db)
      → (create_booking config env job now (found route minutes) here there).error ≡ none
      → IsConfirmed config env job now route minutes here there
          (create_booking config env job now (found route minutes) here there)
  unfolding create_booking
  create_booking-IsConfirmed now minutes route here there h =
      let b : Booking = new_booking job now in
      let ended : Ended = execute_booking_saga config env job route here (put b here) there in
      let (raised_none, settled) = settle_booking-none env.settles minutes b ended h in
      let (known, dbs, events) =
        execute_booking_saga-done route here (put b here) there raised_none in
      subst
        (λ s.
          IsConfirmed config env job now route minutes here there
            (settle_booking s minutes b ended))
        (sym settled)
        (settle_booking-IsConfirmed config env job now route minutes here there ended raised_none
          (known, dbs, events))
