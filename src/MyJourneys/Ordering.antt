-- ===== src/MyJourneys/Ordering.antt =====
-- The list of MyJourneys.tsx over all that can happen on the page.
use distributed_traffic_serv.Base.{
  ◌≡◌, arith, String, Bool, true, false, List, [], ◌∷◌, sort_by-InOrder, InOrder, All-filter,
  filter, Bool-cases, inl, inr, ◌==◌, string_eq,
}
use distributed_traffic_serv.Api.Reply.{Reply, ok, failed}
use distributed_traffic_serv.Api.Bookings.{BookingOut}
use distributed_traffic_serv.MyJourneys.State.{
  FilterType, filter_name, status_name, Journeys, initial_journeys, set_filter, GetTime, is_older,
  load_settled, handle_cancel, cancel_settled, filtered,
}

module _ (get_time : GetTime) where
  -- What can be reached: answers come at any time, also those of cancellations that overlap.
  pub data Browsed : Journeys → Type 0 where
    opened : Browsed initial_journeys
    chosen : {s : Journeys} (f : FilterType) → Browsed s → Browsed (set_filter f s)
    loaded :
        {s : Journeys} (reply : Reply (List BookingOut))
        → Browsed s
        → Browsed (load_settled get_time reply s)
    asked :
        {s : Journeys} (agreed : Bool) (id : String)
        → Browsed s
        → Browsed (handle_cancel agreed id s).0
    cancelled :
        {s : Journeys} (reply : Reply (Unit {0})) (journeys : Reply (List BookingOut))
        → Browsed s
        → Browsed (cancel_settled get_time reply journeys s).0

  abbrev Newest : List BookingOut → Type 0
  Newest bookings = InOrder (is_older get_time) bookings

  load_settled-Newest :
      (reply : Reply (List BookingOut)) (s : Journeys)
      → Newest s.bookings
      → Newest (load_settled get_time reply s).bookings
  unfolding load_settled
  load_settled-Newest (ok found) s h =
      sort_by-InOrder (is_older get_time) (λ x y e. ground arith) (λ x y z e k. ground arith) found
  load_settled-Newest (failed e) s h = h

  handle_cancel-Newest :
      (agreed : Bool) (id : String) (s : Journeys)
      → Newest s.bookings
      → Newest (handle_cancel agreed id s).0.bookings
  unfolding handle_cancel
  handle_cancel-Newest true id s h = h
  handle_cancel-Newest false id s h = h

  cancel_settled-Newest :
      (reply : Reply (Unit {0})) (journeys : Reply (List BookingOut)) (s : Journeys)
      → Newest s.bookings
      → Newest (cancel_settled get_time reply journeys s).0.bookings
  unfolding cancel_settled
  cancel_settled-Newest (ok _) journeys s h = load_settled-Newest journeys s h
  cancel_settled-Newest (failed e) journeys s h = h

  Browsed-Newest : {s : Journeys} → Browsed s → Newest s.bookings
  Browsed-Newest opened = tt
  Browsed-Newest (chosen f b) = Browsed-Newest b
  Browsed-Newest (loaded reply b) = load_settled-Newest reply _ (Browsed-Newest b)
  Browsed-Newest (asked {s = s} agreed id b) = handle_cancel-Newest agreed id s (Browsed-Newest b)
  Browsed-Newest (cancelled {s = s} reply journeys b) =
      cancel_settled-Newest reply journeys s (Browsed-Newest b)

  filter-Newest : (p : BookingOut → Bool) (bs : List BookingOut) → Newest bs → Newest (filter p bs)
  unfolding filter
  filter-Newest p [] h = tt
  filter-Newest p (b ∷ bs) (q, h) = elim (Bool-cases (p b)) [
    | inl e ↦ rw e (All-filter (λ y. is_older get_time b y ≡ false) p bs q, filter-Newest p bs h)
    | inr e ↦ rw e (filter-Newest p bs h)
  ]

  -- Whatever the driver does and the service answers, the page lists the bookings of the chosen
  -- filter with none before a newer one.
  pub filtered-Newest : {s : Journeys} → Browsed s → InOrder (is_older get_time) (filtered s)
  unfolding filtered
  filtered-Newest {s} b = elim (Bool-cases (filter_name s.filter == "all")) [
    | inl e ↦ rw e (Browsed-Newest b)
    | inr e ↦ rw e (
        filter-Newest (λ x. status_name x.status == filter_name s.filter) s.bookings
          (Browsed-Newest b))
  ]
