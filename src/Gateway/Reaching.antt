-- ===== src/Gateway/Reaching.antt =====
-- Which service the calls of the frontend reach.
use package.text.Mathlib.Text.{starts_with}
use package.text.Mathlib.TextEquality.{starts_with_iff}
use package.text.Mathlib.TextPositions.{starts_with-append}
use package.text.Mathlib.TextLemmas.{nil-append, cons-append, append-nil}
use Prim.Native.Char.{Char, code}
use Prim.Native.String.{[], ◌∷◌}
use distributed_traffic_serv.Base.{
  ℕ, ◌≡◌, ◌≢◌, refl, sym, ap, ◌∙◌, eqb, String, ◌<>◌, Bool, false, ◌||◌, ◌==◌, string_eq, eq_iff,
  if◌then◌else◌, Bool-cases, inl, inr, arith,
}
use distributed_traffic_serv.Base.Uri.{encode_uri_component}
use distributed_traffic_serv.Base.Numeral.{to_decimal}
use distributed_traffic_serv.Api.Client.{Method}
use distributed_traffic_serv.Api.Auth.{AuthRequest, RegisterPayload, register, login, get_profile}
use distributed_traffic_serv.Api.Bookings.{
  BookingPayload, RoutePreviewPayload, BookingRequest, create_booking, preview_route,
  get_my_journeys, get_booking, cancel_booking,
}
use distributed_traffic_serv.Api.Verification.{verify_plate}
use distributed_traffic_serv.Api.Notifications.{get_notifications}
use distributed_traffic_serv.Api.Analytics.{get_dashboard, get_capacity_report, get_usage_report}
use distributed_traffic_serv.Gateway.Proxy.{
  HttpMethod, get, post, delete, Service, auth, bookings, verify, notifications, analytics, Routed,
  to, allows, routed, route,
}

-- The paths of a service, but for the bare "/bookings".
abbrev pub prefix_of : Service → String
prefix_of auth = "/auth/"
prefix_of bookings = "/bookings/"
prefix_of verify = "/verify/"
prefix_of notifications = "/notifications/"
prefix_of analytics = "/analytics/"

differ : (c d : Char) → eqb (code c) (code d) ≡ false → c ≢ d
differ c d apart e = let codes = ap code e in absurd (ground (arith, codes, apart))

second_same : (a c d : Char) (s t u v : String) → (a ∷ (c ∷ s)) <> u ≡ (a ∷ (d ∷ t)) <> v → c ≡ d
second_same a c d s t u v e =
    cc (e, cons-append a (c ∷ s) u, cons-append a (d ∷ t) v, cons-append c s u, cons-append d t v)

third_same :
    (a b c d : Char) (s t u v : String)
    → (a ∷ (b ∷ (c ∷ s))) <> u ≡ (a ∷ (b ∷ (d ∷ t))) <> v
    → c ≡ d
third_same a b c d s t u v e = cc (
  e,
  cons-append a (b ∷ (c ∷ s)) u,
  cons-append a (b ∷ (d ∷ t)) v,
  cons-append b (c ∷ s) u,
  cons-append b (d ∷ t) v,
  cons-append c s u,
  cons-append d t v,
)

not_prefix :
    (a c d : Char) (s t u : String) → c ≢ d → starts_with ((a ∷ (c ∷ s)) <> u) (a ∷ (d ∷ t)) ≡ false
not_prefix a c d s t u apart = elim (Bool-cases (starts_with ((a ∷ (c ∷ s)) <> u) (a ∷ (d ∷ t)))) [
  | inr e ↦ e
  | inl e ↦
      let (v, same) = (starts_with_iff ((a ∷ (c ∷ s)) <> u) (a ∷ (d ∷ t))).0 e in
      absurd (apart (second_same a c d s t u v (sym same)))
]

not_prefix_third :
    (a b c d : Char) (s t u : String)
    → c ≢ d
    → starts_with ((a ∷ (b ∷ (c ∷ s))) <> u) (a ∷ (b ∷ (d ∷ t))) ≡ false
not_prefix_third a b c d s t u apart =
    elim (Bool-cases (starts_with ((a ∷ (b ∷ (c ∷ s))) <> u) (a ∷ (b ∷ (d ∷ t))))) [
      | inr e ↦ e
      | inl e ↦
          let (v, same) = (starts_with_iff ((a ∷ (b ∷ (c ∷ s))) <> u) (a ∷ (b ∷ (d ∷ t)))).0 e in
          absurd (apart (third_same a b c d s t u v (sym same)))
    ]

not_whole : (a c d : Char) (s t u : String) → c ≢ d → ((a ∷ (c ∷ s)) <> u == a ∷ (d ∷ t)) ≡ false
not_whole a c d s t u apart = elim (Bool-cases ((a ∷ (c ∷ s)) <> u == a ∷ (d ∷ t))) [
  | inr e ↦ e
  | inl e ↦
      let same = (eq_iff ((a ∷ (c ∷ s)) <> u) (a ∷ (d ∷ t))).0 e in
      absurd (apart (second_same a c d s t u "" (same ∙ sym (append-nil (a ∷ (d ∷ t))))))
]

-- A path below the prefix of a service is routed to it, if it has the method.
pub route-prefix :
    (service : Service) (method : HttpMethod) (rest : String)
    → route method (prefix_of service <> rest) ≡ routed service method
unfolding route
route-prefix auth method rest = rw (starts_with-append "/auth/" rest) refl
route-prefix bookings method rest =
    rw (not_prefix "/" "b" "a" "ookings/" "uth/" rest (differ _ _ refl))
      (rw (starts_with-append "/bookings/" rest) refl)
route-prefix verify method rest =
    rw (not_prefix "/" "v" "a" "erify/" "uth/" rest (differ _ _ refl)) (
      rw (not_prefix "/" "v" "b" "erify/" "ookings/" rest (differ _ _ refl)) (
        rw (not_whole "/" "v" "b" "erify/" "ookings" rest (differ _ _ refl))
          (rw (starts_with-append "/verify/" rest) refl)))
route-prefix notifications method rest =
    rw (not_prefix "/" "n" "a" "otifications/" "uth/" rest (differ _ _ refl)) (
      rw (not_prefix "/" "n" "b" "otifications/" "ookings/" rest (differ _ _ refl)) (
        rw (not_whole "/" "n" "b" "otifications/" "ookings" rest (differ _ _ refl)) (
          rw (not_prefix "/" "n" "v" "otifications/" "erify/" rest (differ _ _ refl))
            (rw (starts_with-append "/notifications/" rest) refl))))
route-prefix analytics method rest =
    rw (not_prefix_third "/" "a" "n" "u" "alytics/" "th/" rest (differ _ _ refl)) (
      rw (not_prefix "/" "a" "b" "nalytics/" "ookings/" rest (differ _ _ refl)) (
        rw (not_whole "/" "a" "b" "nalytics/" "ookings" rest (differ _ _ refl)) (
          rw (not_prefix "/" "a" "v" "nalytics/" "erify/" rest (differ _ _ refl)) (
            rw (not_prefix "/" "a" "n" "nalytics/" "otifications/" rest (differ _ _ refl))
              (rw (starts_with-append "/analytics/" rest) refl)))))

-- `request.url.path`, of the path and query of a call.
unfoldable pub path_of : String → String
path_of [] = []
path_of (c ∷ s) = let rest = path_of s in if eqb (code c) b'?' then [] else c ∷ rest

has_query : String → Bool
has_query [] = false
has_query (c ∷ s) = eqb (code c) b'?' || has_query s

path_of-append : (s t : String) → has_query s ≡ false → path_of (s <> t) ≡ s <> path_of t
unfolding path_of has_query
path_of-append [] t h = ap path_of (nil-append t) ∙ sym (nil-append (path_of t))
path_of-append (c ∷ s) t h =
    let plain : eqb (code c) b'?' ≡ false = ground (arith, h) in
    let rest = path_of-append s t (ground (arith, h)) in
    rw (cons-append c s t) (rw plain (ap (λ u. c ∷ u) rest ∙ sym (cons-append c s (path_of t))))

-- The call of a page: its method is one of the three that axios is given.
abbrev pub http_method : Method → HttpMethod
http_method Method.get = get
http_method Method.post = post
http_method Method.delete = delete

-- Where the gateway routes a call, behind the `/api` that nginx takes off.
abbrev pub reached : Method × String → Routed
reached (method, url) = route (http_method method) (path_of url)

below :
    (service : Service) (method : Method) (rest : String)
    → reached (method, prefix_of service <> rest) ≡ routed service (http_method method)
below service method rest =
    rw (path_of-append (prefix_of service) rest (no_query service))
      (route-prefix service (http_method method) (path_of rest))
  where
    no_query : (service : Service) → has_query (prefix_of service) ≡ false
    no_query auth = unfold has_query in refl
    no_query bookings = unfold has_query in refl
    no_query verify = unfold has_query in refl
    no_query notifications = unfold has_query in refl
    no_query analytics = unfold has_query in refl

abbrev pub auth_call : AuthRequest → Method × String
auth_call (AuthRequest.with_register method url payload) = (method, url)
auth_call (AuthRequest.with_login method url payload) = (method, url)
auth_call (AuthRequest.bare method url) = (method, url)

abbrev pub booking_call : BookingRequest → Method × String
booking_call (BookingRequest.with_booking method url payload) = (method, url)
booking_call (BookingRequest.with_preview method url payload) = (method, url)
booking_call (BookingRequest.bare method url) = (method, url)

-- Every call of the pages is routed to the service that it is meant for, where its address arrives as
-- the page wrote it. A browser resolves the segments "." and ".." of an address and cuts it at a hash
-- in front; what it makes of an id or a plate that brings these is left out.
pub calls_reach :
    (id plate email password : String) (limit : ℕ) (account : RegisterPayload)
    (booking : BookingPayload) (preview : RoutePreviewPayload)
    → (reached (auth_call (register account)) ≡ to auth)
      × (reached (auth_call (login email password)) ≡ to auth)
      × (reached (auth_call get_profile) ≡ to auth)
      × (reached (booking_call (create_booking booking)) ≡ to bookings)
      × (reached (booking_call (preview_route preview)) ≡ to bookings)
      × (reached (booking_call get_my_journeys) ≡ to bookings)
      × (reached (booking_call (get_booking id)) ≡ to bookings)
      × (reached (booking_call (cancel_booking id)) ≡ to bookings)
      × (reached (verify_plate plate) ≡ to verify)
      × (reached (get_notifications id limit) ≡ to notifications)
      × (reached get_dashboard ≡ to analytics)
      × (reached get_capacity_report ≡ to analytics)
      × (reached get_usage_report ≡ to analytics)
unfolding register login get_profile create_booking preview_route get_my_journeys get_booking
    cancel_booking verify_plate get_notifications get_dashboard get_capacity_report get_usage_report
    route path_of allows
calls_reach id plate email password limit account booking preview = (
  refl,
  refl,
  refl,
  refl,
  refl,
  refl,
  below bookings Method.get id,
  below bookings Method.delete id,
  below verify Method.get (encode_uri_component plate),
  below notifications Method.get (id <> ("?limit=" <> to_decimal limit)),
  refl,
  refl,
  refl,
)
