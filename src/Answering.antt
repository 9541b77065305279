-- ===== src/Answering.antt =====
-- What the booking page shows of the answers of the booking service.
mod Tests
use package.text.Mathlib.TextLemmas.{nil-append, cons-append}
use package.text.Mathlib.TextPositions.{slice-append_left}
use Prim.Native.String.{slice, ◌∷◌}
use mathlib.Core.Path.{subst}
use distributed_traffic_serv.Base.{
  ℕ, ◌≡◌, refl, sym, ap, ◌∙◌, String, ◌<>◌, Bool, true, false, ◌||◌, ◌==◌, nat_eq, Option, none,
  some, contains, to_lower, if◌then◌else◌, inl, inr, arith,
}
use distributed_traffic_serv.Api.Reply.{Message, text, Response, ApiError}
use distributed_traffic_serv.BookJourney.Errors.{
  TellsOfSaga, unavailable, rolled_back, full, booking_message-cause,
}
use distributed_traffic_serv.BookJourney.Submit.{
  is_timeout, tells_saga, conflict_message, booking_message, node_unavailable, saga_failed,
  capacity_full,
}
use distributed_traffic_serv.BookingService.Saga.{
  SagaError, region_unavailable, peer_full, no_route, no_roads,
}
use distributed_traffic_serv.BookingService.Service.{error_text, error_status}

unroll : (t : String) → "peer" <> t ≡ "p" ∷ ("e" ∷ ("e" ∷ ("r" ∷ t)))
unroll t = rw (cons-append "p" "eer" t) (
    rw (cons-append "e" "er" t)
      (rw (cons-append "e" "r" t) (rw (cons-append "r" "" t) (rw (nil-append t) refl))))

slice-peer : (t : String) → slice ("p" ∷ ("e" ∷ ("e" ∷ ("r" ∷ t)))) 0 4 ≡ "peer"
slice-peer t = subst (λ u. slice u 0 4 ≡ "peer") (unroll t) (slice-append_left "peer" t)

-- The page finds the word in the text of a full segment of the peer's.
peer_word : (s : String) → contains (to_lower ("Peer: segment " <> s)) "peer" ≡ true
unfolding contains to_lower
peer_word s = rw (cons-append "P" "eer: segment " s) (
    rw (cons-append "e" "er: segment " s) (
      rw (cons-append "e" "r: segment " s) (
        rw (cons-append "r" ": segment " s) (rw (slice-peer (to_lower (": segment " <> s))) refl))))

abbrev no_valid_path : String
no_valid_path = "No valid path found between origin and destination"

no_valid_path-tells : ¬ TellsOfSaga no_valid_path
unfolding contains to_lower
no_valid_path-tells (inl h) = ground (arith, h)
no_valid_path-tells (inr (inl h)) = ground (arith, h)
no_valid_path-tells (inr (inr h)) = ground (arith, h)

abbrev empty_network : String
empty_network = "Road network is empty; cannot resolve route"

empty_network-tells : ¬ TellsOfSaga empty_network
unfolding contains to_lower
empty_network-tells (inl h) = ground (arith, h)
empty_network-tells (inr (inl h)) = ground (arith, h)
empty_network-tells (inr (inr h)) = ground (arith, h)

abbrev as_message : Option String → Option Message
as_message none = none
as_message (some s) = some (text s)

-- What the page tells of an error whose text the service composes of nothing but ids.
abbrev pub told : SagaError → Option String
told (region_unavailable region) = some node_unavailable
told (peer_full id) = some saga_failed
told no_route = some capacity_full
told no_roads = some capacity_full
told _ = none

-- The answer of the service to a booking that failed with the error.
abbrev pub answer_to : (SagaError → String) → (ℕ → String) → SagaError → Response
answer_to library_text iso error = record {
  status = error_status error;
  detail = some (text (error_text library_text iso error));
}

-- Where the answer of a booking that failed at the service arrives without a timeout, the page tells
-- of a regional node that is unavailable where the service says that the region is, of a peer that
-- could not be reached where the peer has answered that the segment is full, and of a full slot
-- where there is no route or no road.
pub booking_message-service :
    (library_text : SagaError → String) (iso : ℕ → String) (error : SagaError) (e : ApiError)
    (m : String)
    → e.response ≡ some (answer_to library_text iso error)
    → is_timeout e ≡ false
    → told error ≡ some m
    → booking_message e ≡ some (text m)
unfolding error_status error_text
booking_message-service library_text iso (region_unavailable region) e m answered timely h =
    let r : Response = answer_to library_text iso (region_unavailable region) in
    booking_message-cause e (unavailable r answered timely (inr refl)) ∙ ap as_message h
booking_message-service library_text iso (peer_full id) e m answered timely h =
    let r : Response = answer_to library_text iso (peer_full id) in
    booking_message-cause e (
      rolled_back r answered timely refl (error_text library_text iso (peer_full id)) refl
        (inl (peer_word (id <> " is full"))))
    ∙ ap as_message h
booking_message-service library_text iso no_route e m answered timely h =
    let r : Response = answer_to library_text iso no_route in
    booking_message-cause e (full r answered timely refl no_valid_path refl no_valid_path-tells)
    ∙ ap as_message h
booking_message-service library_text iso no_roads e m answered timely h =
    let r : Response = answer_to library_text iso no_roads in
    booking_message-cause e (full r answered timely refl empty_network refl empty_network-tells)
    ∙ ap as_message h
booking_message-service library_text iso error e m answered timely h = absurd (ground (arith, h))
