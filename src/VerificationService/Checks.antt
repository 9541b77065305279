-- ===== src/VerificationService/Checks.antt =====
-- How a check of a plate ends, by the cache, the rows of the database and whether both answer.
use distributed_traffic_serv.Base.{
  ℕ, ◌+◌, ◌≤◌, ◌<◌, ◌≡◌, refl, ltb, String, true, false, Option, none, some, List, lookup-without,
  Bool-cases, inl, inr, eq_refl, arith,
}
use distributed_traffic_serv.Api.Verification.{cache, database}
use distributed_traffic_serv.BookingService.Store.{Booking}
use distributed_traffic_serv.VerificationService.Cache.{
  CachedBooking, Redis, cache_key, cache_active_booking, alive, get_cached_booking,
  invalidate_booking,
}
use distributed_traffic_serv.VerificationService.Lookup.{
  journey_window, Verdict, gets, deletes, queries, sets, Answers, select_row, cached_row,
  authorized, refused, answer_row, lookup_db, answer_cached, verify_plate,
}
use distributed_traffic_serv.VerificationService.Verdicts.{
  get-cache_active_booking, IsLatest, NoRow, Selected, select_row-Selected, LatestRow-IsLatest,
  Selected-NoRow,
}

pub get-invalidate_booking :
    (plate : String) (now : ℕ) (redis : Redis)
    → get_cached_booking plate now (invalidate_booking plate redis) ≡ none
unfolding get_cached_booking invalidate_booking alive
get-invalidate_booking plate now redis =
    let key : String = cache_key plate in rw (lookup-without key key redis) (rw (eq_refl key) refl)

module _ (answers : Answers) (owner : String → Option String) (now : ℕ) (plate : String) where
  -- Redis answered the read, with no booking whose window is still on.
  pub record Missed (redis : Redis) : Type 0 where
    pub read : answers gets ≡ true
    pub over :
        (c : CachedBooking)
        → get_cached_booking plate now redis ≡ some c
        → c.journey_window_end < now

  -- How a check ends: the three answers, that of an entry that could not be taken out, and the three
  -- exceptions.
  pub data Checked (bookings : List Booking) (redis : Redis) : Option Verdict × Redis → Type 0 where
    from_cache :
        (c : CachedBooking)
        → answers gets ≡ true
        → get_cached_booking plate now redis ≡ some c
        → now ≤ c.journey_window_end
        → Checked bookings redis (some (authorized plate c cache "cache" now), redis)
    from_row :
        (b : Booking) (redis' : Redis)
        → Missed redis
        → IsLatest owner now plate bookings b
        → ((at : ℕ)
            → now ≤ at
            → at ≤ b.departure_time + journey_window
            → get_cached_booking plate at redis' ≡ some (cached_row b))
        → Checked bookings redis
            (some (authorized plate (cached_row b) database "database" now), redis')
    from_nothing :
        (redis' : Redis)
        → Missed redis
        → NoRow owner now plate bookings
        → get_cached_booking plate now redis' ≡ none
        → Checked bookings redis (some (refused plate now), redis')
    from_stale :
        (c : CachedBooking)
        → Missed redis
        → get_cached_booking plate now redis ≡ some c
        → answers deletes ≡ false
        → Checked bookings redis (some (authorized plate c cache "cache" now), redis)
    read_raised : answers gets ≡ false → Checked bookings redis (none, redis)
    query_raised :
        (redis' : Redis)
        → Missed redis
        → answers queries ≡ false
        → Checked bookings redis (none, redis')
    store_raised :
        (b : Booking) (redis' : Redis)
        → Missed redis
        → IsLatest owner now plate bookings b
        → answers sets ≡ false
        → Checked bookings redis (none, redis')

  answer_row-Checked :
      (bookings : List Booking) (before redis : Redis) (row : Option Booking)
      → Missed before
      → get_cached_booking plate now redis ≡ none
      → Selected owner now plate bookings row
      → Checked bookings before (answer_row answers now plate row redis)
  unfolding answer_row
  answer_row-Checked bookings before redis none missed clear h =
      from_nothing redis missed (Selected-NoRow owner now plate bookings h) clear
  answer_row-Checked bookings before redis (some b) missed clear h =
      let latest : IsLatest owner now plate bookings b =
        LatestRow-IsLatest owner now plate bookings b h in
      elim (Bool-cases (answers sets)) [
        | inl e ↦ rw e (
            from_row b (cache_active_booking plate (cached_row b) now redis) missed latest
              (λ at k l. get-cache_active_booking plate (cached_row b) now at redis k l))
        | inr e ↦ rw e (store_raised b redis missed latest e)
      ]

  lookup_db-Checked :
      (bookings : List Booking) (before redis : Redis)
      → Missed before
      → get_cached_booking plate now redis ≡ none
      → Checked bookings before (lookup_db answers owner now plate bookings redis)
  unfolding lookup_db
  lookup_db-Checked bookings before redis missed clear = elim (Bool-cases (answers queries)) [
    | inl e ↦ rw e (
        answer_row-Checked bookings before redis (select_row owner now plate bookings) missed clear
          (select_row-Selected owner now plate bookings))
    | inr e ↦ rw e (query_raised redis missed e)
  ]

  answer_cached-Checked :
      (bookings : List Booking) (redis : Redis) (c : Option CachedBooking)
      → answers gets ≡ true
      → get_cached_booking plate now redis ≡ c
      → Checked bookings redis (answer_cached answers owner now plate bookings redis c)
  unfolding answer_cached
  answer_cached-Checked bookings redis none read e =
      lookup_db-Checked bookings redis redis
        (record { read = read; over = λ c k. absurd (ground (arith, e, k)) }) e
  answer_cached-Checked bookings redis (some c) read e =
      elim (Bool-cases (ltb c.journey_window_end now)) [
        | inr t ↦ rw t (from_cache c read e (ground (arith, t)))
        | inl t ↦
            let missed : Missed redis = record {
              read = read;
              over = λ d k. ground (arith, t, e, k);
            } in
            elim (Bool-cases (answers deletes)) [
              | inl d ↦ rw t (
                  rw d (
                    lookup_db-Checked bookings redis (invalidate_booking plate redis) missed
                      (get-invalidate_booking plate now redis)))
              | inr d ↦ rw t (rw d (from_stale c missed e d))
            ]
      ]

  -- How the check of a plate ends, whether Redis and the database answer or not. Where the read of the
  -- cache is answered with a booking whose window is not over, it authorises the plate with that
  -- booking. Where it is answered with none or one that is over, the check authorises the plate with
  -- the confirmed booking of the plate that departed last and at most two hours ago, which is then
  -- found in the cache to the end of its window; or refuses it, where there is no such booking; or
  -- fails, where the query or the write of the cache does; but if an entry that is over cannot be
  -- deleted, it still authorises the plate with that entry. Where the read fails, the check fails.
  pub verify_plate-Checked :
      (bookings : List Booking) (redis : Redis)
      → Checked bookings redis (verify_plate answers owner now plate bookings redis)
  unfolding verify_plate
  verify_plate-Checked bookings redis = elim (Bool-cases (answers gets)) [
    | inl e ↦
        rw e (answer_cached-Checked bookings redis (get_cached_booking plate now redis) e refl)
    | inr e ↦ rw e (read_raised e)
  ]
