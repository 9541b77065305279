-- ===== src/Gateway/Proxy.antt =====
-- routes.py: which service a request goes to, and what becomes of it. The services and `httpx` are a
-- parameter. The health route is left out.
use package.text.Mathlib.Text.{starts_with}
use distributed_traffic_serv.Base.{
  ℕ, String, ◌<>◌, Bool, true, false, not, ◌||◌, List, [], ◌∷◌, ◌==◌, string_eq, truthy, to_lower,
  filter, includes, if◌then◌else◌,
}
use distributed_traffic_serv.Access.{Outcome, success, refusal}

pub data HttpMethod : Type 0 where
  get post put delete patch : HttpMethod
  other : String → HttpMethod

pub data Service : Type 0 where
  auth bookings verify notifications analytics : Service

-- Where a request is routed to, with what FastAPI answers in place of a route.
pub data Routed : Type 0 where
  to : Service → Routed
  method_not_allowed not_found : Routed

-- The methods of the routes of each service.
unfoldable pub allows : Service → HttpMethod → Bool
allows auth (other _) = false
allows auth _ = true
allows bookings (other _) = false
allows bookings _ = true
allows _ get = true
allows _ post = true
allows _ _ = false

abbrev pub routed : Service → HttpMethod → Routed
routed service method = if allows service method then to service else method_not_allowed

-- The routes, in their order.
unfoldable pub route : HttpMethod → String → Routed
unfolding allows
route method path =
    if starts_with path "/auth/"
    then routed auth method
    else if starts_with path "/bookings/" || path == "/bookings"
    then routed bookings method
    else if starts_with path "/verify/"
    then routed verify method
    else if starts_with path "/notifications/"
    then routed notifications method
    else if starts_with path "/analytics/"
    then routed analytics method
    else not_found

abbrev pub Headers : Type 0
Headers = List (String × String)

pub record HttpRequest : Type 0 where
  pub method : HttpMethod
  pub path : String
  pub query : String
  pub headers : Headers
  pub body : String

pub record HttpResponse : Type 0 where
  pub status_code : ℕ
  pub headers : Headers
  pub content : String

-- What a service is sent.
pub record Forwarded : Type 0 where
  pub method : HttpMethod
  pub url : String
  pub headers : Headers
  pub content : String

-- What comes back; `unreachable` is ConnectError, and other exceptions are 500.
pub data Reached : Type 0 where
  answered : HttpResponse → Reached
  unreachable failed : Reached

unfoldable pub without_names : List String → Headers → Headers
unfolding filter includes to_lower
without_names names headers = filter (λ h. not (includes names (to_lower h.0))) headers

unfoldable pub forwarded : String → HttpRequest → Forwarded
unfolding without_names
forwarded target_url req = record {
  method = req.method;
  url = target_url <> (req.path <> (if truthy req.query then "?" <> req.query else ""));
  headers = without_names ("host" ∷ "connection" ∷ "content-length" ∷ []) req.headers;
  content = req.body;
}

-- `proxy` behind the call.
unfoldable pub proxied : String → Reached → Outcome HttpResponse
unfolding without_names
proxied target_url (answered resp) =
    success (record resp {
      headers = without_names ("connection" ∷ "transfer-encoding" ∷ []) resp.headers;
    })
proxied target_url unreachable = refusal 503 ("Service unavailable: " <> target_url)
proxied target_url failed = refusal 500 "Internal Server Error"

module _ (url_of : Service → String) (call : Forwarded → Reached) where
  -- `proxy`.
  unfoldable pub proxy : HttpRequest → Service → Outcome HttpResponse
  unfolding forwarded proxied
  proxy req service = proxied (url_of service) (call (forwarded (url_of service) req))

  unfoldable pub routed_to : HttpRequest → Routed → Outcome HttpResponse
  unfolding proxy
  routed_to req (to service) = proxy req service
  routed_to req method_not_allowed = refusal 405 "Method Not Allowed"
  routed_to req not_found = refusal 404 "Not Found"

  -- The gateway behind its middleware.
  unfoldable pub gateway : HttpRequest → Outcome HttpResponse
  unfolding route routed_to
  gateway req = routed_to req (route req.method req.path)
