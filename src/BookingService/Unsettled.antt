-- ===== src/BookingService/Unsettled.antt =====
-- A booking whose saga succeeds, and whose own commit behind the saga, or its refresh, fails.
use distributed_traffic_serv.Base.{◌≡◌, ℕ, some, List, [], ◌∷◌}
use distributed_traffic_serv.Api.Bookings.{rejected}
use distributed_traffic_serv.BookingService.Store.{Db}
use distributed_traffic_serv.BookingService.Saga.{
  RouteSegment, Config, database_refused, Env, Job, confirmed_event,
}
use distributed_traffic_serv.BookingService.Service.{new_booking, put, find_booking, Created}
use distributed_traffic_serv.BookingService.Atomic.{book_route}

-- The booking is stored as rejected, yet the reservations of both nodes are those of the transaction
-- on the whole route, and the event tells that it is confirmed.
abbrev pub IsRejectedYetBooked :
    Config → Env → Job → (now : ℕ) → List RouteSegment → (here there : Db) → Created → Type 0
IsRejectedYetBooked config env job now route here there made =
    (made.error ≡ some database_refused)
    × (made.booking.status ≡ rejected)
    × (find_booking job.booking_id made.here.bookings ≡ some made.booking)
    × (made.here.reservations
        ≡ (book_route config job route (put (new_booking job now) here, there)).0.reservations)
    × (made.there ≡ (book_route config job route (put (new_booking job now) here, there)).1)
    × (made.events ≡ confirmed_event config env job route ∷ [])
