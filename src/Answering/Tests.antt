-- ===== src/Answering/Tests.antt =====
-- A full segment at the peer, as the page tells of it.
use distributed_traffic_serv.Base.{ℕ, ◌≡◌, refl, String, false, some}
use distributed_traffic_serv.Api.Reply.{text, ApiError}
use distributed_traffic_serv.BookJourney.Submit.{is_timeout, booking_message, saga_failed}
use distributed_traffic_serv.BookingService.Saga.{SagaError, peer_full}
use distributed_traffic_serv.Answering.{answer_to, booking_message-service}

abbrev no_text : SagaError → String
no_text e = "none"

abbrev nine : ℕ → String
nine t = "2026-03-02T09:00:00"

abbrev conflict : ApiError
conflict = record {
  response = some (answer_to no_text nine (peer_full "m50"));
  code = some "ERR_BAD_REQUEST";
  message = some "Request failed with status code 409";
}

conflict_timely : is_timeout conflict ≡ false
unfolding is_timeout
conflict_timely = refl

booking_message-service_example : booking_message conflict ≡ some (text saga_failed)
booking_message-service_example =
    booking_message-service no_text nine (peer_full "m50") conflict saga_failed refl conflict_timely
      refl
