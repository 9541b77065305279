-- ===== src/MyJourneys/Loading.antt =====
-- What `load` and `handleCancel` of MyJourneys.tsx leave behind.
use mathlib.Core.List.{Perm}
use distributed_traffic_serv.Base.{
  ◌≡◌, refl, arith, String, true, false, Option, none, some, List, sort_by, InOrder, sort_by-perm,
  sort_by-InOrder, inl, inr, ◌⊎◌,
}
use distributed_traffic_serv.Api.Reply.{ApiError, Message, Reply, ok, failed, detail_or}
use distributed_traffic_serv.Api.Bookings.{BookingOut}
use distributed_traffic_serv.MyJourneys.State.{
  Journeys, GetTime, is_older, load_settled, cancel_settled, handle_cancel, load_failed,
}

module _ (get_time : GetTime) where
  -- The bookings that a page shows behind an answer, or those of before and a message: what
  -- `load` is meant to do.
  pub data Loaded (before after : Journeys) : Reply (List BookingOut) → Type 0 where
    newest_first :
        {found : List BookingOut}
        → Perm after.bookings found
        → InOrder (is_older get_time) after.bookings
        → after.error ≡ before.error
        → Loaded before after (ok found)
    kept :
        {e : ApiError}
        → after.bookings ≡ before.bookings
        → after.error ≡ load_failed
        → Loaded before after (failed e)

  sorted-Loaded :
      (found : List BookingOut) (before after : Journeys)
      → after.bookings ≡ sort_by (is_older get_time) found
      → after.error ≡ before.error
      → Loaded before after (ok found)
  sorted-Loaded found before after same quiet =
      newest_first (rw same (sort_by-perm (is_older get_time) found))
        (rw same (
          sort_by-InOrder (is_older get_time) (λ x y h. ground arith) (λ x y z h k. ground arith)
            found))
        quiet

  -- Behind any answer to its request the page is no longer loading. Behind a list it shows exactly
  -- the bookings of the list, none before a newer one; behind an error it keeps its bookings and
  -- tells of the failure.
  pub load-Loaded :
      (reply : Reply (List BookingOut)) (s : Journeys)
      → ((load_settled get_time reply s).loading ≡ false)
        × Loaded s (load_settled get_time reply s) reply
  unfolding load_settled
  load-Loaded (ok found) s = (refl, sorted-Loaded found s _ refl refl)
  load-Loaded (failed e) s = (refl, kept refl refl)

  -- `handleCancel` of a booking that the driver agrees to cancel, to its end.
  abbrev pub cancelled_run :
      String → Reply (Unit {0}) → Reply (List BookingOut) → Journeys → Journeys × Option Message
  cancelled_run id reply journeys s =
      cancel_settled get_time reply journeys (handle_cancel true id s).0

  -- Once the driver agrees to a cancellation, the buttons are free again at its end, whatever the
  -- two answers were. The bookings are loaded anew, with no alert, if the cancellation was accepted;
  -- otherwise they stay and an alert says why.
  pub cancel_ends :
      (id : String) (reply : Reply (Unit {0})) (journeys : Reply (List BookingOut)) (s : Journeys)
      → ((cancelled_run id reply journeys s).0.cancelling ≡ none)
        × (((cancelled_run id reply journeys s).1 ≡ none)
              × Loaded s (cancelled_run id reply journeys s).0 journeys
            ⊎ ((e : ApiError) × (reply ≡ failed e)
                × ((cancelled_run id reply journeys s).1 ≡ some (detail_or e "Cancellation failed"))
                × ((cancelled_run id reply journeys s).0.bookings ≡ s.bookings)))
  unfolding cancel_settled handle_cancel load_settled
  cancel_ends id (ok _) (ok found) s = (refl, inl (refl, sorted-Loaded found s _ refl refl))
  cancel_ends id (ok _) (failed e) s = (refl, inl (refl, kept refl refl))
  cancel_ends id (failed e) journeys s = (refl, inr (e, refl, refl, refl))
