-- ===== src/BookJourney/Tests.antt =====
-- The theorems on BookJourney.tsx at concrete inputs, and runs of the handlers.
use mathlib.Core.List.{Memᴰ}
use distributed_traffic_serv.Base.{
  ◌≤◌, ◌≡◌, ◌≢◌, refl, true, false, none, some, [], ◌∷◌, arith, ne_of_test, contains, to_lower, inl,
}
use distributed_traffic_serv.Base.Decimal.{dec, negsuc}
use distributed_traffic_serv.Api.Reply.{text, ApiError, Response, Reply, ok}
use distributed_traffic_serv.Api.Bookings.{RoutePreviewOut, RoutePreviewPayload}
use distributed_traffic_serv.BookJourney.Waypoints.{LocalTime, default_departure, waypoint_by_id}
use distributed_traffic_serv.BookJourney.State.{Book, InFlight, initial, can_submit}
use distributed_traffic_serv.BookJourney.Select.{handle_map_point_click}
use distributed_traffic_serv.BookJourney.Check.{ToIso, run_effect, after_render, preview_settled}
use distributed_traffic_serv.BookJourney.Submit.{booking_message, is_timeout, saga_failed}
use distributed_traffic_serv.BookJourney.Page.{previews, Reached, mounts, next, submit_disabled}
use distributed_traffic_serv.BookJourney.Selection.{Selected, Reached-Selected}
use distributed_traffic_serv.BookJourney.Freshness.{chosen}
use distributed_traffic_serv.BookJourney.Requests.{IsBacked, submit-IsBacked, check_ends}
use distributed_traffic_serv.BookJourney.Hanging.{Hangs, deliver, cleared_check-Hangs}
use distributed_traffic_serv.BookJourney.Errors.{
  Cause, rolled_back, message_for, booking_message-cause,
}
use distributed_traffic_serv.BookJourney.View.Form.{button_text, button_text-enabled}

abbrev soon : LocalTime
soon = record { year = 2026; month = 2; day = 7; hours = 9 }

departure_test : default_departure soon ≡ "2026-03-07T09:00"
unfolding default_departure
departure_test = refl

abbrev utc : ToIso
utc t = some t

abbrev route : RoutePreviewOut
route = record {
  route_available = true;
  reason = none;
  estimated_duration_minutes = some 150;
  region_chain = "EU_WEST_IRELAND" ∷ [];
  segments = [];
}

-- Every answer says the same.
abbrev Says : RoutePreviewPayload → RoutePreviewOut → Type 0
Says p out = out ≡ route

abbrev opened : Book
opened = run_effect utc (initial none soon)

opened-Reached : Reached utc Says opened
opened-Reached = mounts none soon

abbrev asked : InFlight
asked = record {
  run = 1;
  payload = record {
    origin_lat = dec 533498 4;
    origin_lng = record { units = negsuc 62602; places = 4 };
    destination_lat = dec 518985 4;
    destination_lng = record { units = negsuc 84755; places = 4 };
    departure_time = "2026-03-07T09:00";
  };
}

asked-Memᴰ : Memᴰ asked opened.in_flight
unfolding run_effect initial waypoint_by_id default_departure
asked-Memᴰ = Memᴰ.head refl

abbrev checked : Book
checked = preview_settled 1 (ok route) opened

checked-Reached : Reached utc Says checked
checked-Reached = next opened-Reached (previews asked asked-Memᴰ (ok route) (λ out e. cc))

checked_enabled : submit_disabled checked ≡ false
unfolding submit_disabled can_submit run_effect initial waypoint_by_id default_departure
    preview_settled
checked_enabled = refl

Reached-Selected_example : Selected checked
Reached-Selected_example = Reached-Selected utc Says checked-Reached

submit-IsBacked_example : IsBacked utc Says checked
submit-IsBacked_example = submit-IsBacked utc Says checked-Reached checked_enabled

check_ends_example :
    (f : InFlight) × Memᴰ f opened.in_flight
    × (f.payload ≡ asked.payload)
    × ((reply : Reply RoutePreviewOut)
        → (preview_settled f.run reply opened).checking_route ≡ false)
unfolding chosen run_effect initial waypoint_by_id default_departure
check_ends_example = check_ends utc Says asked.payload opened-Reached refl refl

opened_checks : opened.checking_route ≡ true
unfolding run_effect initial waypoint_by_id default_departure
opened_checks = refl

opened_origin : opened.origin_id ≢ ""
unfolding run_effect initial waypoint_by_id default_departure
opened_origin = ne_of_test "dublin" "" refl

opened_run : 1 ≤ opened.run
unfolding run_effect initial waypoint_by_id default_departure
opened_run = omega arith

cleared_check-Hangs_example : Hangs (
    deliver
      ((1, ok route) ∷ [])
      (after_render utc opened (handle_map_point_click opened.origin_id opened)))
cleared_check-Hangs_example =
    cleared_check-Hangs utc opened ((1, ok route) ∷ []) opened_checks opened_origin (opened_run, tt)

abbrev refused_saga : Response
refused_saga = record { status = 409; detail = some (text "Peer reservation failed") }

abbrev saga_error : ApiError
saga_error = record {
  response = some refused_saga;
  code = some "ERR_BAD_REQUEST";
  message = some "Request failed with status code 409";
}

saga_timely : is_timeout saga_error ≡ false
unfolding is_timeout
saga_timely = refl

saga_word : contains (to_lower "Peer reservation failed") "peer" ≡ true
unfolding contains to_lower
saga_word = refl

abbrev saga_cause : Cause saga_error
saga_cause =
    rolled_back refused_saga refl saga_timely refl "Peer reservation failed" refl (inl saga_word)

booking_message-cause_example : booking_message saga_error ≡ message_for saga_error saga_cause
booking_message-cause_example = booking_message-cause saga_error saga_cause

saga_message_test : booking_message saga_error ≡ some (text saga_failed)
unfolding booking_message
saga_message_test = refl

button_text_test : button_text checked ≡ "Request booking →"
button_text_test = button_text-enabled checked checked_enabled
