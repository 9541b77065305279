-- ===== src/NotificationService/Tests.antt =====
-- Ann is told of a confirmed booking, and reads it.
use mathlib.Core.List.{Memᴰ}
use distributed_traffic_serv.Base.{◌+◌, ◌≤◌, ◌≡◌, refl, Bool, true, none, List, [], ◌∷◌, count}
use distributed_traffic_serv.Access.{Claims}
use distributed_traffic_serv.BookingService.Saga.{Event}
use distributed_traffic_serv.NotificationService.Consumer.{
  Channel, sms, Notification, channels_of, handle_event,
}
use distributed_traffic_serv.NotificationService.Telling.{tells, handle_event-Tells}

abbrev event : Event
event = record {
  routing_key = "booking.confirmed";
  booking_id = "b1";
  driver_id = "ann";
  plate_number = none;
  regions = [];
  departure_time = none;
}

abbrev stubs : Channel → Bool
stubs c = true

-- The database fails behind the first row, and takes all at the second delivery.
handled : (handle_event stubs (1 ∷ 3 ∷ []) event 7 []).1 ≡ true
unfolding handle_event
handled = refl

by_sms : Memᴰ sms (channels_of "booking.confirmed")
unfolding channels_of
by_sms = Memᴰ.tail (Memᴰ.head refl)

handle_event-Tells_example :
    count (tells event sms) [] + 1
    ≤ count (tells event sms) (handle_event stubs (1 ∷ 3 ∷ []) event 7 []).0
handle_event-Tells_example =
    handle_event-Tells stubs (1 ∷ 3 ∷ []) event 7 [] sms refl by_sms refl handled

abbrev ann : Claims
ann = record { sub = "ann"; role = "driver"; email = "ann@x.ie"; iat = 0; exp = 60 }

abbrev stored : List Notification
stored = (handle_event stubs (3 ∷ []) event 7 []).0
