-- ===== src/MyJourneys/View.antt =====
-- What MyJourneys.tsx renders.
use distributed_traffic_serv.Base.{
  ℕ, zero, suc, String, ◌<>◌, Bool, false, not, ◌&&◌, Option, none, some, List, [], ◌∷◌, map,
  length, truthy, ◌==◌, nat_eq, string_eq, includes, lookup, ToLocale, nullish, if◌then◌else◌,
}
use distributed_traffic_serv.Base.Numeral.{to_decimal}
use distributed_traffic_serv.Api.Bookings.{BookingOut}
use distributed_traffic_serv.MyJourneys.State.{
  FilterType, all, only_confirmed, only_pending, only_cancelled, only_rejected, filter_name,
  status_name, Journeys, filtered, counts,
}

pub record StatusMeta : Type 0 where
  pub label : String
  pub color : String
  pub bg : String
  pub dot : String

abbrev meta_of : String → String → String → String → StatusMeta
meta_of label color bg dot = record { label = label; color = color; bg = bg; dot = dot }

-- `STATUS_META['CANCELLED']`.
abbrev pub cancelled_meta : StatusMeta
cancelled_meta = meta_of "Cancelled" "#374151" "#f3f4f6" "#9ca3af"

-- `STATUS_META`, as the list of its entries.
abbrev pub status_meta : List (String × StatusMeta)
status_meta =
    ("CONFIRMED", meta_of "Confirmed" "#15803d" "#dcfce7" "#00c26f")
    ∷ ("PENDING", meta_of "Pending" "#92400e" "#fef3c7" "#f59e0b")
    ∷ ("SAGA_IN_PROGRESS", meta_of "Processing" "#6d28d9" "#ede9fe" "#7c3aed")
    ∷ ("REJECTED", meta_of "Rejected" "#991b1b" "#fee2e2" "#f03e3e")
    ∷ ("CANCELLED", cancelled_meta)
    ∷ []

-- A pill of the statistics.
pub record StatPill : Type 0 where
  pub text : String
  pub border : String
  pub background : String
  pub dot : String
  pub color : String

-- The button of a filter, which calls `setFilter`.
pub record FilterPill : Type 0 where
  pub choice : FilterType
  pub selected : Bool
  pub text : String

-- The cancel button of a row, which calls `handleCancel` with its booking.
pub record CancelButton : Type 0 where
  pub disabled : Bool
  pub text : String

pub record Row : Type 0 where
  pub status : StatusMeta
  pub booking_id : String
  pub duration : Option String
  pub booked : String
  pub cancel : Option CancelButton

-- `nothing` is the box that stands in place of an empty list.
pub data Rows : Type 0 where
  nothing : (heading body link link_goes_to : String) → Rows
  rows : List Row → Rows

pub record JourneysList : Type 0 where
  pub heading : String
  pub new_booking_goes_to : String
  pub error : Option String
  pub stats : List StatPill
  pub pills : List FilterPill
  pub body : Rows

pub data JourneysScreen : Type 0 where
  waiting : String → JourneysScreen
  listing : JourneysList → JourneysScreen

-- `counts[key] ? <div>…</div> : null`, over the entries of `STATUS_META`.
unfoldable pub stat_pills : (String → ℕ) → List (String × StatusMeta) → List StatPill
stat_pills number [] = []
stat_pills number ((key, m) ∷ rest) =
    let more = stat_pills number rest in
    if number key == 0
    then more
    else record {
      text = to_decimal (number key) <> (" " <> m.label);
      border = m.dot <> "44";
      background = m.bg;
      dot = m.dot;
      color = m.color;
    }
      ∷ more

-- `STATUS_META[f]?.label ?? f`.
abbrev label_or : Option StatusMeta → String → String
label_or none f = f
label_or (some m) f = m.label

unfoldable pub filter_pill : Journeys → FilterType → FilterPill
unfolding filter_name counts lookup
filter_pill s f =
    let name : String = filter_name f in
    record {
      choice = f;
      selected = filter_name s.filter == name;
      text =
          (if name == "all"
            then "All (" <> (to_decimal (length s.bookings) <> ")")
            else label_or (lookup name status_meta) name)
          <> (if not (name == "all") && not (counts s name == 0)
              then " (" <> (to_decimal (counts s name) <> ")")
              else "");
    }

-- `n && <div>…</div>`: a missing number renders nothing, and the number 0 renders itself.
unfoldable pub row_duration : Option ℕ → Option String
row_duration none = none
row_duration (some zero) = some "0"
row_duration (some (suc n)) = some (to_decimal (suc n) <> " min")

abbrev is_cancelling : Option String → String → Bool
is_cancelling none id = false
is_cancelling (some cancelling) id = cancelling == id

unfoldable pub cancel_button : Journeys → BookingOut → Option CancelButton
unfolding includes status_name
cancel_button s b =
    let busy : Bool = is_cancelling s.cancelling b.booking_id in
    if includes ("CONFIRMED" ∷ "PENDING" ∷ []) (status_name b.status)
    then some (record { disabled = busy; text = if busy then "Cancelling…" else "Cancel" })
    else none

module _ (to_locale : ToLocale) where
  unfoldable pub row : Journeys → BookingOut → Row
  unfolding lookup status_name row_duration cancel_button
  row s b = record {
    status = nullish (lookup (status_name b.status) status_meta) cancelled_meta;
    booking_id = b.booking_id;
    duration = row_duration b.estimated_duration_minutes;
    booked = to_locale b.created_at;
    cancel = cancel_button s b;
  }

  unfoldable pub journey_rows : Journeys → List BookingOut → Rows
  unfolding row
  journey_rows s [] =
      nothing "No journeys yet"
        "You must have a confirmed booking before you can start any journey."
        "Book your first journey →" "/book"
  journey_rows s (b ∷ rest) = rows (map (row s) (b ∷ rest))

  -- The whole page.
  unfoldable pub journeys_screen : Journeys → JourneysScreen
  unfolding journey_rows filtered stat_pills filter_pill
  journeys_screen s =
      let some_booked : Bool = not (length s.bookings == 0) in
      if s.loading
      then waiting "Loading journeys…"
      else listing (record {
        heading = "My Journeys";
        new_booking_goes_to = "/book";
        error = if truthy s.error then some s.error else none;
        stats = if some_booked then stat_pills (counts s) status_meta else [];
        pills =
            if some_booked
            then map (filter_pill s)
                (all ∷ only_confirmed ∷ only_pending ∷ only_cancelled ∷ only_rejected ∷ [])
            else [];
        body = journey_rows s (filtered s);
      })
