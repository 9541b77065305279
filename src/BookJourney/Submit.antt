-- ===== src/BookJourney/Submit.antt =====
-- `handleSubmit`: its guards, the request of a booking, and the message for each failure.
use distributed_traffic_serv.Base.{
  String, Bool, true, false, ◌||◌, Option, none, some, truthy, ◌==◌, nat_eq, string_eq,
  if◌then◌else◌, to_upper, to_lower, contains, nullish,
}
use distributed_traffic_serv.Api.Reply.{
  Message, text, objects, Response, ApiError, Reply, ok, failed, or_message, range_error, shown,
}
use distributed_traffic_serv.Api.Bookings.{BookingPayload, BookingOut}
use distributed_traffic_serv.BookJourney.Waypoints.{Waypoint}
use distributed_traffic_serv.BookJourney.State.{Book, origin, destination, available}
use distributed_traffic_serv.BookJourney.Check.{ToIso, no_path}

abbrev pub select_first : String
select_first = "Select origin and destination from the map first."

abbrev pub request_failed : String
request_failed = "Booking request failed. Please try again."

abbrev pub node_down : String
node_down =
    "A regional node appears to be down. The service is partially available — try booking within a single region (e.g. London → Manchester or Dublin → Cork)."

abbrev pub node_unavailable : String
node_unavailable =
    "A regional node is currently unavailable. Try a same-region journey — cross-region bookings are temporarily suspended."

abbrev pub saga_failed : String
saga_failed =
    "Cross-region SAGA failed — the peer regional node could not be reached. Your reservations have been rolled back automatically. Try a same-region journey or retry later."

abbrev pub capacity_full : String
capacity_full = "Capacity full for this time slot. Please try a different departure time."

-- `err.code === 'ECONNABORTED' || err.message?.includes('timeout')`.
unfoldable pub is_timeout : ApiError → Bool
unfolding contains
is_timeout e = nullish e.code "" == "ECONNABORTED" || contains (nullish e.message "") "timeout"

-- The three words that tell a failed saga from a full slot.
unfoldable pub tells_saga : String → Bool
unfolding contains to_lower
tells_saga detail =
    contains (to_lower detail) "peer"
    || contains (to_lower detail) "saga"
    || contains (to_lower detail) "rollback"

-- The message at a conflict. `detail.toLowerCase` is missing at what is no text: the handler throws.
unfoldable pub conflict_message : Message → Option Message
unfolding tells_saga
conflict_message (text detail) =
    some (if tells_saga detail then text saga_failed else text capacity_full)
conflict_message objects = none

response_message : Response → Option Message
unfolding conflict_message
response_message r =
    let detail : Message = or_message r.detail "" in
    if r.status == 503 || r.status == 502
    then some (text node_unavailable)
    else if r.status == 409
    then conflict_message detail
    else if shown detail
    then some detail
    else some (text request_failed)

-- The `catch`: the message that is shown, or `none` if the handler itself throws.
unfoldable pub booking_message : ApiError → Option Message
unfolding response_message is_timeout
booking_message e = elim e.response [
  | none ↦ some (text node_down)
  | some r ↦ if is_timeout e then some (text node_down) else response_message r
]

abbrev set_message : Option Message → Message → Message
set_message none old = old
set_message (some m) old = m

-- The end of the handler: `catch` and `finally`.
unfoldable pub booking_settled : Reply BookingOut → Book → Book
unfolding booking_message
booking_settled (ok out) s = record s { result = some out; loading = false }
booking_settled (failed e) s = record s {
  error = set_message (booking_message e) s.error;
  loading = false;
}

-- `...(plateNumber ? {plate_number: plateNumber.toUpperCase() } : {})`.
abbrev plate_field : String → Option String
plate_field plate = if truthy plate then some (to_upper plate) else none

abbrev pub booking_payload : Waypoint → Waypoint → String → String → BookingPayload
booking_payload o d departure plate = record {
  origin_lat = o.lat;
  origin_lng = o.lng;
  destination_lat = d.lat;
  destination_lng = d.lng;
  departure_time = departure;
  plate_number = plate_field plate;
}

send_booking : Waypoint → Waypoint → Option String → Book → Book × Option BookingPayload
unfolding booking_settled
send_booking o d none s = (booking_settled (failed range_error) s, none)
send_booking o d (some departure) s = (s, some (booking_payload o d departure s.plate_number))

submit_from : ToIso → Option Waypoint → Option Waypoint → Book → Book × Option BookingPayload
unfolding send_booking
submit_from to_iso (some o) (some d) s =
    if available s.route_preview
    then send_booking o d (to_iso s.datetime)
        (record s { loading = true; error = text ""; result = none })
    else (record s { error = or_message (some s.preview_error) no_path }, none)
submit_from to_iso _ _ s = (record s { error = text select_first }, none)

-- `handleSubmit`, up to its `await`: the state, and the payload of the request if one is sent.
unfoldable pub handle_submit : ToIso → Book → Book × Option BookingPayload
unfolding submit_from
handle_submit to_iso s = submit_from to_iso (origin s) (destination s) s
