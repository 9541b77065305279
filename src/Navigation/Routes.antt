-- ===== src/Navigation/Routes.antt =====
-- The route table of routes.tsx.
use distributed_traffic_serv.Base.{◌≡◌, String, Option, some, List, [], ◌∷◌}
use distributed_traffic_serv.Session.Roles.{UserRole, driver, enforcement, admin}

pub data Page : Type 0 where
  sign_in register book journeys verify dashboard notifications : Page

-- The elements of the route table: `<Navigate to=… replace />`, a page, or a page in a `RoleGuard`.
pub data Element : Type 0 where
  navigate : String → Element
  show : Page → Element
  guarded : List UserRole → Page → Element

-- The children of the route '/', each by the path that it has in the location.
pub data Place : Type 0 where
  index at_sign_in at_register at_book at_journeys at_verify at_dashboard at_notifications : Place

unfoldable pub path_of : Place → String
path_of index = "/"
path_of at_sign_in = "/signin"
path_of at_register = "/register"
path_of at_book = "/book"
path_of at_journeys = "/journeys"
path_of at_verify = "/verify"
path_of at_dashboard = "/dashboard"
path_of at_notifications = "/notifications"

-- `router`.
unfoldable pub element_of : Place → Element
element_of index = navigate "/signin"
element_of at_sign_in = show sign_in
element_of at_register = show register
element_of at_book = guarded (driver ∷ admin ∷ []) book
element_of at_journeys = guarded (driver ∷ admin ∷ []) journeys
element_of at_verify = guarded (enforcement ∷ admin ∷ []) verify
element_of at_dashboard = guarded (admin ∷ []) dashboard
element_of at_notifications = guarded (driver ∷ enforcement ∷ admin ∷ []) notifications

-- What react-router finds for a pathname, and what the table relies on: the path of a route finds
-- that route. Which other spellings of a path it accepts is left open.
abbrev pub Matcher : Type 0
Matcher = String → Option Place

abbrev pub FindsRoutes : Matcher → Type 0
FindsRoutes match = (p : Place) → match (path_of p) ≡ some p
