-- ===== src/BookJourney/View/Card.antt =====
-- The card that stands in place of the form once a booking was answered.
use distributed_traffic_serv.Base.{
  ℕ, zero, suc, String, ◌<>◌, Bool, true, false, Option, none, some, if◌then◌else◌,
}
use distributed_traffic_serv.Base.Numeral.{to_decimal}
use distributed_traffic_serv.Api.Bookings.{BookingStatus, confirmed, BookingOut}

unfoldable pub is_confirmed : BookingStatus → Bool
is_confirmed confirmed = true
is_confirmed _ = false

-- `colour` is that of the background and the border; `booking_id` and
-- `duration` stand only on the card of a confirmed booking.
pub record Card : Type 0 where
  pub colour : String
  pub heading : String
  pub body : String
  pub booking_id : Option String
  pub duration : Option String
  pub button : String
  pub button_goes_to : String

-- `n && <p>…</p>`: a missing number renders nothing, and the number 0 renders itself.
unfoldable pub duration_text : Option ℕ → Option String
duration_text none = none
duration_text (some zero) = some "0"
duration_text (some (suc n)) = some ("Est. duration: " <> (to_decimal (suc n) <> " min"))

unfoldable pub card : BookingOut → Card
unfolding is_confirmed duration_text
card result =
    let ok : Bool = is_confirmed result.status in
    record {
      colour = if ok then "var(--green)" else "var(--red)";
      heading = if ok then "Booking Confirmed" else "Booking Rejected";
      body =
          if ok
          then "Your journey has been registered across all regional nodes."
          else "Booking could not be completed — capacity full, regional node unavailable, or SAGA rolled back. Please try a different time or route.";
      booking_id = if ok then some result.booking_id else none;
      duration = if ok then duration_text result.estimated_duration_minutes else none;
      button = "View all journeys →";
      button_goes_to = "/journeys";
    }
