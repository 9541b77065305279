-- ===== src/MyJourneys/Tests.antt =====
-- MyJourneys.tsx on three bookings: what is shown, and the theorems on it.
use distributed_traffic_serv.Base.{
  InOrder, ◌≡◌, refl, String, false, none, some, List, [], ◌∷◌, length, map, string_eq, nat_eq, ◌⊎◌,
  ◌==◌, if◌then◌else◌, insert_sorted,
}
use distributed_traffic_serv.Base.Numeral.{to_decimal}
use distributed_traffic_serv.Api.Reply.{ApiError, text, Reply, ok, failed, detail_or}
use distributed_traffic_serv.Api.Bookings.{BookingStatus, confirmed, cancelled, BookingOut}
use distributed_traffic_serv.MyJourneys.State.{
  Journeys, initial_journeys, GetTime, load_settled, only_confirmed, filtered, set_filter, is_older,
  filter_name, counts,
}
use distributed_traffic_serv.MyJourneys.Counting.{pill_text, filter_pill-text}
use distributed_traffic_serv.MyJourneys.Loading.{Loaded, load-Loaded, cancelled_run, cancel_ends}
use distributed_traffic_serv.MyJourneys.Ordering.{Browsed, chosen, opened, filtered-Newest}
use distributed_traffic_serv.MyJourneys.View.{filter_pill, cancel_button}

booked : String → BookingStatus → String → BookingOut
booked id status at = record {
  booking_id = id;
  status = status;
  estimated_duration_minutes = some 95;
  created_at = at;
  segments = none;
}

-- The texts "a" to "c" stand for three dates.
abbrev clock : GetTime
clock at = if at == "a" then 1 else if at == "b" then 2 else 3

answer : List BookingOut
unfolding booked
answer = booked "1" confirmed "a" ∷ booked "2" cancelled "c" ∷ booked "3" confirmed "b" ∷ []

abbrev shown_ids : Journeys → List String
shown_ids s = map (λ b. b.booking_id) s.bookings

loaded : Journeys
unfolding load_settled answer
loaded = load_settled clock (ok answer) initial_journeys

newest_first_test : shown_ids loaded ≡ "2" ∷ "3" ∷ "1" ∷ []
unfolding loaded insert_sorted
newest_first_test = refl

pill_test : (filter_pill loaded only_confirmed).text ≡ "Confirmed (2)"
unfolding loaded filter_pill insert_sorted filter_name counts to_decimal
pill_test = refl

no_cancel_test : cancel_button loaded (booked "2" cancelled "c") ≡ none
unfolding cancel_button booked
no_cancel_test = refl

filter_pill-text_test :
    (filter_pill loaded only_confirmed).text
    ≡ pill_text only_confirmed (length (filtered (set_filter only_confirmed loaded)))
filter_pill-text_test = filter_pill-text loaded only_confirmed

load-Loaded_test :
    ((load_settled clock (ok answer) initial_journeys).loading ≡ false)
    × Loaded clock initial_journeys (load_settled clock (ok answer) initial_journeys) (ok answer)
load-Loaded_test = load-Loaded clock (ok answer) initial_journeys

abbrev gone : ApiError
gone = record {
  response = some (record { status = 409; detail = some (text "Already cancelled") });
  code = none;
  message = none;
}

abbrev refused : Reply (Unit {0})
refused = failed gone

cancel_ends_test :
    ((cancelled_run clock "1" refused (ok []) loaded).0.cancelling ≡ none)
    × (((cancelled_run clock "1" refused (ok []) loaded).1 ≡ none)
          × Loaded clock loaded (cancelled_run clock "1" refused (ok []) loaded).0 (ok [])
        ⊎ ((e : ApiError) × (refused ≡ failed e)
            × ((cancelled_run clock "1" refused (ok []) loaded).1
                ≡ some (detail_or e "Cancellation failed"))
            × ((cancelled_run clock "1" refused (ok []) loaded).0.bookings ≡ loaded.bookings)))
cancel_ends_test = cancel_ends clock "1" refused (ok []) loaded

narrowed : Journeys
narrowed = set_filter only_confirmed (load_settled clock (ok answer) initial_journeys)

narrowed-Browsed : Browsed clock narrowed
unfolding narrowed
narrowed-Browsed = chosen only_confirmed (Browsed.loaded (ok answer) opened)

narrowed_test : map (λ b. b.booking_id) (filtered narrowed) ≡ "3" ∷ "1" ∷ []
unfolding narrowed filtered load_settled answer insert_sorted booked
narrowed_test = refl

filtered-Newest_test : InOrder (is_older clock) (filtered narrowed)
filtered-Newest_test = filtered-Newest clock narrowed-Browsed
