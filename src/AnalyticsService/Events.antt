-- ===== src/AnalyticsService/Events.antt =====
-- consumer.py and aggregator.py: the rows of `booking_events`, less their random ids and the ids of
-- segments, which nothing reads. The consumer sets the type of an event from its routing key.
use distributed_traffic_serv.Base.{ℕ, String, Bool, Option, none, some, List, [], ◌∷◌, map}
use distributed_traffic_serv.BookingService.Saga.{Event}
use distributed_traffic_serv.Delivery.{deliver}

pub record BookingEvent : Type 0 where
  pub booking_id : String
  pub driver_id : String
  pub event_type : String
  pub region : Option String
  pub created_at : ℕ

abbrev pub event_row : Event → ℕ → Option String → BookingEvent
event_row e now region = record {
  booking_id = e.booking_id;
  driver_id = e.driver_id;
  event_type = e.routing_key;
  region = region;
  created_at = now;
}

-- The rows of an event: one for each segment, or one where it has none.
unfoldable pub rows_over : Event → ℕ → List String → List BookingEvent
rows_over e now [] = event_row e now none ∷ []
rows_over e now (region ∷ regions) = map (λ r. event_row e now (some r)) (region ∷ regions)

unfoldable pub rows_of : Event → ℕ → List BookingEvent
unfolding rows_over
rows_of e now = rows_over e now e.regions

-- `handle_event` over the deliveries of its message, and whether it came to its end.
unfoldable pub handle_event :
    (attempts : List ℕ) → Event → ℕ → List BookingEvent → List BookingEvent × Bool
unfolding rows_of deliver
handle_event attempts e now table = deliver attempts (rows_of e now) table
