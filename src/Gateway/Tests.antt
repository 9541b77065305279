-- ===== src/Gateway/Tests.antt =====
-- Two addresses.
use Prim.Native.Nat.{min}
use distributed_traffic_serv.Base.{
  arith, ℕ, suc, ◌≡◌, refl, String, true, false, none, List, [], ◌∷◌, count, lookup,
}
use distributed_traffic_serv.Base.Decimal.{Decimal, dec}
use distributed_traffic_serv.Api.Auth.{RegisterPayload, register, login, get_profile}
use distributed_traffic_serv.Api.Bookings.{
  BookingPayload, RoutePreviewPayload, create_booking, preview_route, get_my_journeys, get_booking,
  cancel_booking,
}
use distributed_traffic_serv.Api.Verification.{verify_plate}
use distributed_traffic_serv.Api.Notifications.{get_notifications}
use distributed_traffic_serv.Api.Analytics.{get_dashboard, get_capacity_report, get_usage_report}
use distributed_traffic_serv.Gateway.Proxy.{
  auth, bookings, verify, notifications, analytics, delete, to, method_not_allowed, route,
}
use distributed_traffic_serv.Gateway.Reaching.{reached, auth_call, booking_call, calls_reach}
use distributed_traffic_serv.Gateway.RateLimiter.{rate_limit, Counters, Request, key_of, passes}
use distributed_traffic_serv.Gateway.Window.{comes_from, passes_a_window, passes_for_ever}

abbrev at : String → ℕ → Request
at ip now = record { client_ip = ip; now = now; increments = true; expires = true }

abbrev later : List Request
later = at "10.0.0.2" 1000000 ∷ at "10.0.0.1" 2000000 ∷ []

abbrev empty : Counters
empty = []

fresh : lookup (key_of "10.0.0.1") empty ≡ none
unfolding lookup
fresh = refl

passes_a_window_example :
    passes "10.0.0.1" (at "10.0.0.1" 0 ∷ later) []
    ≡ min rate_limit (suc (count (comes_from "10.0.0.1") later))
passes_a_window_example =
    passes_a_window "10.0.0.1" (at "10.0.0.1" 0) later [] refl refl refl fresh
      ((refl, omega arith), ((refl, omega arith), tt))

abbrev unset : Request
unset = record (at "10.0.0.1" 0) { expires = false }

passes_for_ever_example :
    passes "10.0.0.1" (unset ∷ later) []
    ≡ min rate_limit (suc (count (comes_from "10.0.0.1") later))
passes_for_ever_example =
    passes_for_ever "10.0.0.1" unset later [] refl refl refl fresh (refl, (refl, tt))

abbrev zero_degrees : Decimal
zero_degrees = dec 0 0

abbrev account : RegisterPayload
account = record {
  email = "ann@x.ie";
  password = "secret";
  role = "driver";
  region = "EU_WEST_UK";
  plate_number = none;
}

abbrev booking : BookingPayload
booking = record {
  origin_lat = zero_degrees;
  origin_lng = zero_degrees;
  destination_lat = zero_degrees;
  destination_lng = zero_degrees;
  departure_time = "2026-01-01T10:00:00Z";
  plate_number = none;
}

abbrev preview : RoutePreviewPayload
preview = record {
  origin_lat = zero_degrees;
  origin_lng = zero_degrees;
  destination_lat = zero_degrees;
  destination_lng = zero_degrees;
  departure_time = "2026-01-01T10:00:00Z";
}

calls_reach_test :
    (reached (auth_call (register account)) ≡ to auth)
    × (reached (auth_call (login "ann@x.ie" "secret")) ≡ to auth)
    × (reached (auth_call get_profile) ≡ to auth)
    × (reached (booking_call (create_booking booking)) ≡ to bookings)
    × (reached (booking_call (preview_route preview)) ≡ to bookings)
    × (reached (booking_call get_my_journeys) ≡ to bookings)
    × (reached (booking_call (get_booking "b?1")) ≡ to bookings)
    × (reached (booking_call (cancel_booking "b?1")) ≡ to bookings)
    × (reached (verify_plate "AB 12") ≡ to verify)
    × (reached (get_notifications "b?1" 20) ≡ to notifications)
    × (reached get_dashboard ≡ to analytics)
    × (reached get_capacity_report ≡ to analytics)
    × (reached get_usage_report ≡ to analytics)
calls_reach_test = calls_reach "b?1" "AB 12" "ann@x.ie" "secret" 20 account booking preview

-- No route of the gateway takes the invalidation of a cached plate.
invalidation_refused : route delete "/verify/_cache/AB12" ≡ method_not_allowed
unfolding route
invalidation_refused = refl
