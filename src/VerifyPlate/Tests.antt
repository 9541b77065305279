-- ===== src/VerifyPlate/Tests.antt =====
-- VerifyPlate.tsx on a lookup: what is requested and shown, and the theorems on it.
use distributed_traffic_serv.Base.{
  ◌<>◌, ◌≡◌, refl, String, true, none, some, List, [], ◌∷◌, take, to_upper, trim,
}
use distributed_traffic_serv.Base.Segment.{IsSegment}
use distributed_traffic_serv.Base.Uri.{encode_uri_component}
use distributed_traffic_serv.Api.Reply.{ok}
use distributed_traffic_serv.Api.Client.{get}
use distributed_traffic_serv.Api.Verification.{cache, VerificationResult, verify_plate}
use distributed_traffic_serv.VerifyPlate.State.{
  RecentCheck, Lookup, initial_lookup, type_plate, submit_lookup, lookup_settled,
}
use distributed_traffic_serv.VerifyPlate.View.{result_card}
use distributed_traffic_serv.VerifyPlate.History.{
  opened, typed, asked, told, Seen-latest, submit_lookup-IsSegment,
}

abbrev found : VerificationResult
found = record {
  plate_number = "241 D/1";
  is_authorized = true;
  booking_id = some "b-1";
  driver_id = none;
  status = none;
  departure_time = none;
  journey_window_end = none;
  segments = none;
  message = "ok";
  source = cache;
  checked_at = "2026-04-01T10:00:00Z";
}

abbrev typed_once : Lookup
typed_once = type_plate "241 d/1 " initial_lookup

request_test : (submit_lookup typed_once).1 ≡ (get, "/verify/241%20D%2F1")
unfolding submit_lookup type_plate verify_plate encode_uri_component to_upper trim
request_test = refl

heading_test : (result_card (λ t. t) (λ t. t) found).heading ≡ "AUTHORIZED"
unfolding result_card
heading_test = refl

abbrev at_ten : String
at_ten = "2026-04-01T10:00:00.000Z"

abbrev answered_once : Lookup
answered_once = lookup_settled at_ten (ok found) (submit_lookup typed_once).0

abbrev log : List RecentCheck
log = record { result = found; checked_at = at_ten } ∷ []

Seen-latest_test : answered_once.recent_checks ≡ take 5 log
Seen-latest_test = Seen-latest (told at_ten (ok found) (asked (typed "241 d/1 " opened)))

submit_lookup-IsSegment_test :
    (segment : String) × ((submit_lookup typed_once).1 ≡ (get, "/verify/" <> segment))
    × IsSegment segment
submit_lookup-IsSegment_test = submit_lookup-IsSegment typed_once
