-- ===== src/NotificationService/Consumer.antt =====
-- consumer.py and notifiers: the notifications of an event. `sends` says what the notifier of a
-- channel answers; those of the repository are stubs that answer true.
use distributed_traffic_serv.Base.{
  ℕ, String, ◌<>◌, Bool, not, List, [], ◌∷◌, ◌==◌, string_eq, truthy, filter, map, if◌then◌else◌,
}
use distributed_traffic_serv.BookingService.Saga.{Event}
use distributed_traffic_serv.Delivery.{deliver}

pub data Channel : Type 0 where
  push sms email : Channel

-- A row of `notifications`, less its random id.
pub record Notification : Type 0 where
  pub user_id : String
  pub booking_id : String
  pub event_type : String
  pub channel : Channel
  pub message : String
  pub sent_at : ℕ

-- The channels of a type of event, in the order of the code.
unfoldable pub channels_of : String → List Channel
channels_of event_type =
    if event_type == "booking.confirmed"
    then push ∷ sms ∷ email ∷ []
    else if event_type == "booking.failed"
    then push ∷ email ∷ []
    else if event_type == "booking.cancelled"
    then push ∷ sms ∷ []
    else []

unfoldable pub message_of : (event_type booking_id : String) → String
message_of event_type booking_id =
    if event_type == "booking.confirmed"
    then "Your booking " <> (booking_id <> " is confirmed.")
    else if event_type == "booking.failed"
    then "Booking " <> (booking_id <> " could not be confirmed. Please try again.")
    else "Your booking " <> (booking_id <> " was cancelled.")

abbrev pub notification : Event → ℕ → Channel → Notification
notification e now channel = record {
  user_id = e.driver_id;
  booking_id = e.booking_id;
  event_type = e.routing_key;
  channel = channel;
  message = message_of e.routing_key e.booking_id;
  sent_at = now;
}

-- The rows that `handle_event` stores at the time `now`: none of an event without a driver, and one
-- for each channel that is delivered. The consumer sets the type of an event from its routing key.
unfoldable pub notifications_of : (Channel → Bool) → Event → ℕ → List Notification
unfolding channels_of message_of filter
notifications_of sends e now =
    if not (truthy e.driver_id)
    then []
    else map (notification e now) (filter sends (channels_of e.routing_key))

-- `handle_event` over the deliveries of its message, and whether it came to its end.
unfoldable pub handle_event :
    (Channel → Bool)
    → (attempts : List ℕ) → Event
    → ℕ
    → List Notification
    → List Notification × Bool
unfolding notifications_of deliver
handle_event sends attempts e now table = deliver attempts (notifications_of sends e now) table
