-- ===== src/BookingService/Refusal.antt =====
-- A booking that is refused holds nothing.
use mathlib.Core.Path.{subst}
use distributed_traffic_serv.Base.{
  ℕ, ◌≡◌, ◌≢◌, ◌⊎◌, refl, sym, ◌∙◌, String, Bool, true, false, not, ◌&&◌, Option, none, some, List,
  [], ◌∷◌, any, Bool-cases, Option-cases, inl, inr, ◌==◌, string_eq, eq_refl, arith,
}
use distributed_traffic_serv.Api.Bookings.{rejected}
use distributed_traffic_serv.BookingService.Store.{Db, Booking}
use distributed_traffic_serv.BookingService.Saga.{
  RouteSegment, Config, request_lost, SagaError, database_refused, broker_down, Env, Job, Progress,
  nothing_reserved, reserve_all, saga_failed, saga_reserved, execute_booking_saga, is_unavailable,
  Ended,
}
use distributed_traffic_serv.BookingService.Service.{
  Route, found, not_found, empty, new_booking, put_booking, put, find_booking, Created,
  settle_error, settle_booking, create_booking,
}
use distributed_traffic_serv.BookingService.Holding.{HoldsOnly, HoldsNone, nowhere, HoldsOnly-imp}
use distributed_traffic_serv.BookingService.Tracking.{
  Tracks, Tracks-error, covered, is_unheard, failed_unheard, reserve_all-Tracks,
}
use distributed_traffic_serv.BookingService.Compensation.{
  compensate-HoldsOnly, roll_back_peer-HoldsNone,
}

pub find_booking-put :
    (b : Booking) (bookings : List Booking) → find_booking b.id (put_booking b bookings) ≡ some b
unfolding find_booking put_booking
find_booking-put b [] = ground (arith, eq_refl b.id)
find_booking-put b (x ∷ rest) = elim (Bool-cases (x.id == b.id)) [
  | inl e ↦ rw e (rw (eq_refl b.id) refl)
  | inr e ↦ rw e (rw e (find_booking-put b rest))
]

-- A saga that failed has left nothing behind, but where an answer of the peer was not heard.
abbrev pub LeavesNone : String → Ended → Type 0
LeavesNone id ended =
    HoldsNone id ended.here × ((failed_unheard ended.error ≡ true) ⊎ HoldsNone id ended.there)

-- The booking is stored as rejected. It has no active reservation at this node, and none at the
-- peer unless the error says that a region is unavailable or that an answer could not be read.
abbrev pub IsRefused : Job → SagaError → Created → Type 0
IsRefused job e made =
    (find_booking job.booking_id made.here.bookings ≡ some made.booking)
    × (made.booking.status ≡ rejected)
    × HoldsNone job.booking_id made.here
    × ((is_unheard e ≡ true) ⊎ HoldsNone job.booking_id made.there)

pub settle_booking-error :
    (minutes : ℕ) (b : Booking) (ended : Ended)
    → (settle_booking true minutes b ended).error ≡ ended.error
unfolding settle_booking settle_error
settle_booking-error minutes b ended = elim (Option-cases ended.error) [
  | inl none_ ↦ rw none_ refl
  | inr (e, raised) ↦ rw raised refl
]

-- What raises nothing has had no exception of the saga, and none behind it.
pub settle_booking-none :
    (settles : Bool) (minutes : ℕ) (b : Booking) (ended : Ended)
    → (settle_booking settles minutes b ended).error ≡ none
    → (ended.error ≡ none) × (settles ≡ true)
unfolding settle_booking settle_error
settle_booking-none true minutes b ended h = (sym (settle_booking-error minutes b ended) ∙ h, refl)
settle_booking-none false minutes b ended h = elim (Option-cases ended.error) [
  | inl none_ ↦ absurd (ground (arith, h, none_))
  | inr (e, raised) ↦ absurd (ground (arith, h, raised))
]

settle_booking-IsRefused :
    (settles : Bool) (job : Job) (now minutes : ℕ) (ended : Ended) (e : SagaError)
    → ended.error ≡ some e
    → LeavesNone job.booking_id ended
    → IsRefused job e (settle_booking settles minutes (new_booking job now) ended)
unfolding settle_booking settle_error
settle_booking-IsRefused settles job now minutes ended e raised (h, k) = rw raised (
  find_booking-put _ ended.here.bookings,
  refl,
  h,
  subst (λ error. (failed_unheard error ≡ true) ⊎ HoldsNone job.booking_id ended.there) raised k,
)

is_unheard-unavailable : (e : SagaError) → is_unheard e ≡ false → is_unavailable e ≡ false
is_unheard-unavailable e h = ground arith

module _ (config : Config) (env : Env) (job : Job)
    (releases : (seg : RouteSegment) → env.releases seg ≡ true)
    (reached : env.release_link ≢ request_lost) (told : env.takes_failed ≡ true)
    (settles : env.settles ≡ true) where
  saga_failed-LeavesNone :
      (e : SagaError) (committed : Db) (p : Progress)
      → HoldsOnly (covered config p.reserved) job.booking_id committed.reservations
      → Tracks config env job p (some e)
      → LeavesNone job.booking_id (saga_failed config env job e committed p)
  unfolding saga_failed
  saga_failed-LeavesNone e committed p h k = (
    HoldsOnly-imp (λ s. covered config p.reserved s && not (covered config p.reserved s)) nowhere
        (λ s t. ground arith) job.booking_id _
        (compensate-HoldsOnly config env job (covered config p.reserved) p.reserved committed
          releases h),
    rw told (elim (Bool-cases (is_unheard e)) [
      | inl u ↦ inl u
      | inr u ↦
          inr (elim (Bool-cases (p.peer_reserved && config.has_peer && not (is_unavailable e))) [
            | inl t ↦
                rw t (roll_back_peer-HoldsNone config env job env.release_link p.there reached)
            | inr t ↦ rw t (elim k.remote [
              | inl a ↦
                  let known = is_unheard-unavailable e u in absurd (ground (arith, t, a, known))
              | inr (inl b) ↦ b
              | inr (inr c) ↦ absurd (ground (arith, c, u))
            ])
          ])
    ]),
  )

  saga_reserved-LeavesNone :
      (before : Db) (p : Progress) (error : Option SagaError) (e : SagaError)
      → HoldsNone job.booking_id before
      → Tracks config env job p error
      → (saga_reserved config env job before p error).error ≡ some e
      → LeavesNone job.booking_id (saga_reserved config env job before p error)
  unfolding saga_reserved
  saga_reserved-LeavesNone before p (some e₁) e h k failed =
      saga_failed-LeavesNone e₁ before p
        (HoldsOnly-imp nowhere (covered config p.reserved) (λ s t. ground arith) job.booking_id
          before.reservations h)
        k
  saga_reserved-LeavesNone before p none e h k failed = elim (Bool-cases env.commits) [
    | inr c ↦ rw c (
        saga_failed-LeavesNone database_refused before p
          (HoldsOnly-imp nowhere (covered config p.reserved) (λ s t. ground arith) job.booking_id
            before.reservations h)
          (Tracks-error config env job p p.there _ refl k))
    | inl c ↦ elim (Bool-cases env.takes_confirmed) [
      | inr t ↦ rw c (
          rw t (
            saga_failed-LeavesNone broker_down p.here p k.local
              (Tracks-error config env job p p.there _ refl k)))
      | inl t ↦ absurd (ground (arith, failed, c, t))
    ]
  ]

  execute_booking_saga-LeavesNone :
      (route : List RouteSegment) (before here there : Db) (e : SagaError)
      → here.reservations ≡ before.reservations
      → HoldsNone job.booking_id before
      → HoldsNone job.booking_id there
      → (execute_booking_saga config env job route before here there).error ≡ some e
      → LeavesNone job.booking_id (execute_booking_saga config env job route before here there)
  unfolding execute_booking_saga any
  execute_booking_saga-LeavesNone route before here there e same h k failed =
      let start : Progress = nothing_reserved here there in
      saga_reserved-LeavesNone before (reserve_all config env job route start).0
        (reserve_all config env job route start).1 e h
        (reserve_all-Tracks config env job route start
          (record { local = rw same h; remote = inr (inl k) }))
        failed

  -- Where `create_booking` raises `e` for an id that holds nothing at either node yet, every release
  -- at this node succeeds, the call that releases at the peer arrives, the broker takes the event of
  -- the failure, and the commit and the refresh behind the saga do not fail: the booking is stored as
  -- rejected, it has no active reservation at this node and, unless `e` says that a region is
  -- unavailable or that an answer of the peer could not be read, none at the peer.
  pub create_booking-IsRefused :
      (now : ℕ) (route : Route) (here there : Db) (e : SagaError)
      → HoldsNone job.booking_id here
      → HoldsNone job.booking_id there
      → (create_booking config env job now route here there).error ≡ some e
      → IsRefused job e (create_booking config env job now route here there)
  unfolding create_booking settle_booking settle_error
  create_booking-IsRefused now not_found here there e h k failed =
      (find_booking-put _ here.bookings, refl, h, inr k)
  create_booking-IsRefused now empty here there e h k failed =
      (find_booking-put _ here.bookings, refl, h, inr k)
  create_booking-IsRefused now (found route minutes) here there e h k failed =
      let b : Booking = new_booking job now in
      let ended : Ended = execute_booking_saga config env job route here (put b here) there in
      let raised : ended.error ≡ some e =
        sym (settle_booking-error minutes b ended)
        ∙ (subst (λ s. (settle_booking s minutes b ended).error ≡ some e) settles failed) in
      settle_booking-IsRefused env.settles job now minutes ended e raised
        (execute_booking_saga-LeavesNone route here (put b here) there e refl h k raised)
