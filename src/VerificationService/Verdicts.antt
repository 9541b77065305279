-- ===== src/VerificationService/Verdicts.antt =====
-- The row that the query of a check finds, and how long the cache keeps a booking.
use distributed_traffic_serv.Base.{
  ℕ, ◌+◌, ◌*◌, ◌≤◌, ◌<◌, ◌≡◌, ◌≢◌, refl, sym, ap, ◌∙◌, ltb, String, true, false, ◌&&◌, Option, none,
  some, List, [], ◌∷◌, ◌==◌, string_eq, eq_iff, nullish, to_upper, All, All-imp, All-mem, lookup,
  Bool-cases, Option-cases, ◌⊎◌, inl, inr, eq_refl, arith,
}
use mathlib.Core.List.{Memᴰ}
use mathlib.Core.Path.{subst}
use distributed_traffic_serv.Api.Bookings.{confirmed}
use distributed_traffic_serv.BookingService.Store.{Booking}
use distributed_traffic_serv.BookingService.Reconciler.{is_confirmed_status}
use distributed_traffic_serv.VerificationService.Cache.{
  second, CachedBooking, Redis, cache_key, ttl_seconds, cache_active_booking, alive,
  get_cached_booking,
}
use distributed_traffic_serv.VerificationService.Lookup.{plate_of, is_active_row, later, select_row}

-- An entry outlives the window that it is stored for.
pub ttl_seconds-outlives :
    (window_end now at : ℕ)
    → now ≤ at
    → at ≤ window_end
    → at < now + ttl_seconds window_end now * second
unfolding ttl_seconds
ttl_seconds-outlives window_end now at h k = ground arith

-- What is stored is found until the window of its journey ends.
pub get-cache_active_booking :
    (plate : String) (c : CachedBooking) (now at : ℕ) (redis : Redis)
    → now ≤ at
    → at ≤ c.journey_window_end
    → get_cached_booking plate at (cache_active_booking plate c now redis) ≡ some c
unfolding get_cached_booking cache_active_booking lookup alive
get-cache_active_booking plate c now at redis h k =
    rw (eq_refl (cache_key plate))
      (ground (arith, ttl_seconds-outlives c.journey_window_end now at h k))

-- A plate that a booking has: its own, or its driver's where it has none, or else the empty text.
pub data HasPlate (owner : String → Option String) (b : Booking) : String → Type 0 where
  own : (p : String) → b.plate_number ≡ some p → p ≢ "" → HasPlate owner b p
  drivers :
      (p : String)
      → (b.plate_number ≡ none) ⊎ (b.plate_number ≡ some "")
      → owner b.driver_id ≡ some p
      → HasPlate owner b p
  nobodys :
      (b.plate_number ≡ none) ⊎ (b.plate_number ≡ some "")
      → owner b.driver_id ≡ none
      → HasPlate owner b ""

-- A confirmed booking of the plate, letter case aside, that departed at most two hours ago.
pub record IsActive (owner : String → Option String) (now : ℕ) (plate : String) (b : Booking)
    : Type 0 where
  pub same_plate : (p : String) × HasPlate owner b p × (to_upper p ≡ plate)
  pub is_confirmed : b.status ≡ confirmed
  pub departed : b.departure_time ≤ now
  pub not_over : now ≤ b.departure_time + 7200000000

-- The active row of a plate that departed last.
pub record IsLatest (owner : String → Option String) (now : ℕ) (plate : String)
    (bookings : List Booking) (b : Booking) : Type 0 where
  pub listed : Memᴰ b bookings
  pub active : IsActive owner now plate b
  pub last :
      (c : Booking)
      → Memᴰ c bookings
      → IsActive owner now plate c
      → c.departure_time ≤ b.departure_time

abbrev pub NoRow : (String → Option String) → ℕ → String → List Booking → Type 0
NoRow owner now plate bookings = (c : Booking) → Memᴰ c bookings → ¬ IsActive owner now plate c

-- The same by the code's own test.
abbrev pub LatestRow : (String → Option String) → ℕ → String → List Booking → Booking → Type 0
LatestRow owner now plate bookings b =
    Memᴰ b bookings
    × (is_active_row owner now plate b ≡ true)
    × All (λ c. (is_active_row owner now plate c && ltb b.departure_time c.departure_time) ≡ false)
        bookings

abbrev pub Selected : (String → Option String) → ℕ → String → List Booking → Option Booking → Type 0
Selected owner now plate bookings none = All (λ c. is_active_row owner now plate c ≡ false) bookings
Selected owner now plate bookings (some b) = LatestRow owner now plate bookings b

later_next : (b c : Booking) → ltb b.departure_time c.departure_time ≡ true → later b (some c) ≡ c
unfolding later
later_next b c t = rw t refl

later_first : (b c : Booking) → ltb b.departure_time c.departure_time ≡ false → later b (some c) ≡ b
unfolding later
later_first b c t = rw t refl

module _ (owner : String → Option String) (now : ℕ) (plate : String) where
  Selected-skip :
      (b : Booking) (rest : List Booking) (row : Option Booking)
      → is_active_row owner now plate b ≡ false
      → Selected owner now plate rest row
      → Selected owner now plate (b ∷ rest) row
  Selected-skip b rest none e h = (e, h)
  Selected-skip b rest (some c) e (m, a, h) = (Memᴰ.tail m, a, (rw e refl, h))

  Selected-take :
      (b : Booking) (rest : List Booking) (row : Option Booking)
      → is_active_row owner now plate b ≡ true
      → Selected owner now plate rest row
      → LatestRow owner now plate (b ∷ rest) (later b row)
  unfolding later
  Selected-take b rest none e h =
      (Memᴰ.head refl, e, (ground arith, All-imp (λ c k. rw k refl) rest h))
  Selected-take b rest (some c) e (m, a, h) =
      elim (Bool-cases (ltb b.departure_time c.departure_time)) [
        | inl t ↦
            subst (LatestRow owner now plate (b ∷ rest)) (sym (later_next b c t))
              (Memᴰ.tail m, a, (ground (arith, t), h))
        | inr t ↦
            subst (LatestRow owner now plate (b ∷ rest)) (sym (later_first b c t))
              (Memᴰ.head refl, e, (ground arith, All-imp (λ d k. ground (arith, t, k)) rest h))
      ]

  pub select_row-Selected :
      (bookings : List Booking)
      → Selected owner now plate bookings (select_row owner now plate bookings)
  unfolding select_row
  select_row-Selected [] = tt
  select_row-Selected (b ∷ rest) =
      let found : Option Booking = select_row owner now plate rest in
      elim (Bool-cases (is_active_row owner now plate b)) [
        | inl e ↦ rw e (Selected-take b rest found e (select_row-Selected rest))
        | inr e ↦ rw e (Selected-skip b rest found e (select_row-Selected rest))
      ]

  bare_plate :
      (b : Booking)
      → (b.plate_number ≡ none) ⊎ (b.plate_number ≡ some "")
      → plate_of owner b ≡ nullish (owner b.driver_id) ""
  unfolding plate_of
  bare_plate b (inl e) = rw e refl
  bare_plate b (inr e) = rw e refl

  HasPlate-plate_of : (b : Booking) (p : String) → HasPlate owner b p → plate_of owner b ≡ p
  unfolding plate_of
  HasPlate-plate_of b p (own q e shown) = rw e (elim (Bool-cases (q == "")) [
    | inl empty ↦ absurd (shown ((eq_iff q "").0 empty))
    | inr other ↦ rw other refl
  ])
  HasPlate-plate_of b p (drivers q bare e) = bare_plate b bare ∙ rw e refl
  HasPlate-plate_of b p (nobodys bare e) = bare_plate b bare ∙ rw e refl

  bare-HasPlate :
      (b : Booking)
      → (b.plate_number ≡ none) ⊎ (b.plate_number ≡ some "")
      → (p : String) × HasPlate owner b p
  bare-HasPlate b bare = elim (Option-cases (owner b.driver_id)) [
    | inl e ↦ ("", nobodys bare e)
    | inr (p, e) ↦ (p, drivers p bare e)
  ]

  some_plate : (b : Booking) → (p : String) × HasPlate owner b p
  some_plate b = elim (Option-cases b.plate_number) [
    | inl e ↦ bare-HasPlate b (inl e)
    | inr (p, e) ↦ elim (Bool-cases (p == "")) [
      | inl empty ↦ bare-HasPlate b (inr (e ∙ ap some ((eq_iff p "").0 empty)))
      | inr shown ↦
          (p, own p e (λ same. let k = (eq_iff p "").1 same in absurd (ground (arith, shown, k))))
    ]
  ]

  is_active_row-IsActive :
      (b : Booking) → is_active_row owner now plate b ≡ true → IsActive owner now plate b
  unfolding is_active_row is_confirmed_status
  is_active_row-IsActive b h =
      let (p, has) = some_plate b in
      let named : to_upper (plate_of owner b) ≡ plate =
        (eq_iff (to_upper (plate_of owner b)) plate).0 (ground (arith, h)) in
      record {
        same_plate = (p, has, ap to_upper (sym (HasPlate-plate_of b p has)) ∙ named);
        is_confirmed = ground (arith, h);
        departed = ground (arith, h);
        not_over = ground (arith, h);
      }

  IsActive-is_active_row :
      (b : Booking) → IsActive owner now plate b → is_active_row owner now plate b ≡ true
  unfolding is_active_row is_confirmed_status
  IsActive-is_active_row b a =
      let (p, has, same) = a.same_plate in
      let named : to_upper (plate_of owner b) ≡ plate =
        ap to_upper (HasPlate-plate_of b p has) ∙ same in
      let e = (eq_iff (to_upper (plate_of owner b)) plate).1 named in
      ground (arith, e, a.is_confirmed, a.departed, a.not_over)

  pub LatestRow-IsLatest :
      (bookings : List Booking) (b : Booking)
      → LatestRow owner now plate bookings b
      → IsLatest owner now plate bookings b
  LatestRow-IsLatest bookings b (m, e, h) = record {
    listed = m;
    active = is_active_row-IsActive b e;
    last = λ c in_ a.
        let k =
          All-mem
            (λ d.
              (is_active_row owner now plate d && ltb b.departure_time d.departure_time) ≡ false)
            bookings h in_ in
        ground (arith, k, IsActive-is_active_row c a);
  }

  pub Selected-NoRow :
      (bookings : List Booking)
      → All (λ c. is_active_row owner now plate c ≡ false) bookings
      → NoRow owner now plate bookings
  Selected-NoRow bookings h c m a =
      let k = All-mem (λ d. is_active_row owner now plate d ≡ false) bookings h m in
      absurd (ground (arith, k, IsActive-is_active_row c a))
