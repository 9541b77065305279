-- ===== src/MyJourneys/State.antt =====
-- The state of the page, `load`, `handleCancel`, and the derived `filtered` and `counts`.
use distributed_traffic_serv.Base.{
  ℕ, suc, ltb, String, Bool, true, false, Option, none, some, List, [], ◌∷◌, ◌==◌, string_eq,
  if◌then◌else◌, filter, nullish, lookup, sort_by,
}
use distributed_traffic_serv.Api.Reply.{Message, Reply, ok, failed, detail_or}
use distributed_traffic_serv.Api.Bookings.{
  BookingStatus, confirmed, rejected, pending, cancelled, saga_in_progress, BookingOut,
  BookingRequest, cancel_booking,
}

pub data FilterType : Type 0 where
  all only_confirmed only_pending only_cancelled only_rejected : FilterType

-- The text that a filter is in the source.
unfoldable pub filter_name : FilterType → String
filter_name all = "all"
filter_name only_confirmed = "CONFIRMED"
filter_name only_pending = "PENDING"
filter_name only_cancelled = "CANCELLED"
filter_name only_rejected = "REJECTED"

-- The text that a status is in the source.
unfoldable pub status_name : BookingStatus → String
status_name confirmed = "CONFIRMED"
status_name rejected = "REJECTED"
status_name pending = "PENDING"
status_name cancelled = "CANCELLED"
status_name saga_in_progress = "SAGA_IN_PROGRESS"

pub record Journeys : Type 0 where
  pub bookings : List BookingOut
  pub filter : FilterType
  pub loading : Bool
  pub cancelling : Option String
  pub error : String

-- The state before the first effect, which calls `load`.
abbrev pub initial_journeys : Journeys
initial_journeys = record {
  bookings = [];
  filter = all;
  loading = true;
  cancelling = none;
  error = "";
}

abbrev pub load_failed : String
load_failed = "Failed to load journeys. Check that the booking service is running."

-- `setFilter`.
abbrev pub set_filter : FilterType → Journeys → Journeys
set_filter f s = record s { filter = f }

-- `new Date(text).getTime()` of the runtime, at the time stamps of bookings: milliseconds after
-- the start of 1970.
abbrev pub GetTime : Type 0
GetTime = String → ℕ

module _ (get_time : GetTime) where
  -- `compare(a, b) > 0`.
  abbrev pub is_older : BookingOut → BookingOut → Bool
  is_older a b = ltb (get_time a.created_at) (get_time b.created_at)

  -- What `load` does at the answer to its request. It never throws.
  unfoldable pub load_settled : Reply (List BookingOut) → Journeys → Journeys
  unfolding sort_by
  load_settled (ok found) s = record s { bookings = sort_by is_older found; loading = false }
  load_settled (failed e) s = record s { error = load_failed; loading = false }

  -- The part of `handleCancel` behind the answer to the DELETE request: the state at its end and
  -- the text of the alert, if there is one. `journeys` is what `load` is answered.
  unfoldable pub cancel_settled :
      Reply (Unit {0}) → Reply (List BookingOut) → Journeys → Journeys × Option Message
  unfolding load_settled detail_or
  cancel_settled (ok _) journeys s = (record (load_settled journeys s) { cancelling = none }, none)
  cancel_settled (failed e) journeys s =
      (record s { cancelling = none }, some (detail_or e "Cancellation failed"))

-- `handleCancel` up to its first `await`, with the answer of `window.confirm`: the state, and the
-- request if one is sent.
unfoldable pub handle_cancel : Bool → String → Journeys → Journeys × Option BookingRequest
unfolding cancel_booking
handle_cancel agreed id s =
    if agreed then (record s { cancelling = some id }, some (cancel_booking id)) else (s, none)

-- `filtered`.
unfoldable pub filtered : Journeys → List BookingOut
unfolding filter status_name filter_name
filtered s =
    if filter_name s.filter == "all"
    then s.bookings
    else filter (λ b. status_name b.status == filter_name s.filter) s.bookings

-- `acc[status] = (acc[status] || 0) + 1`, in a map as the list of its entries.
unfoldable pub bump : String → List (String × ℕ) → List (String × ℕ)
bump k [] = (k, 1) ∷ []
bump k ((j, n) ∷ m) = if j == k then (j, suc n) ∷ m else (j, n) ∷ bump k m

-- The `reduce`, from any map.
unfoldable pub tally : List (String × ℕ) → List BookingOut → List (String × ℕ)
unfolding bump status_name
tally acc [] = acc
tally acc (b ∷ rest) = tally (bump (status_name b.status) acc) rest

-- `counts[key]`, as it is read: a missing entry and 0 are both falsy.
unfoldable pub counts : Journeys → String → ℕ
unfolding tally lookup
counts s key = nullish (lookup key (tally [] s.bookings)) 0
