-- ===== src/Navigation/Settling.antt =====
-- Where a visit of a path ends, and who sees which page.
use distributed_traffic_serv.Base.{
  ◌≡◌, ◌≢◌, refl, if◌then◌else◌, inl, inr, String, Bool, true, false, Option, none, some, arith,
  Option-cases, string_eq,
}
use distributed_traffic_serv.Session.Roles.{
  UserRole, Region, driver, enforcement, admin, User, role_eq, role_beq,
}
use distributed_traffic_serv.Navigation.Routes.{
  Page, sign_in, register, book, journeys, verify, dashboard, notifications, Place, index,
  at_sign_in, at_register, at_book, at_journeys, at_verify, at_dashboard, at_notifications, path_of,
  element_of, Matcher, FindsRoutes,
}
use distributed_traffic_serv.Navigation.Guard.{page, root, render, visit}

-- Who is meant to see which page, as a table: the two public pages are for nobody signed in.
unfoldable pub may_open : Option UserRole → Page → Bool
may_open none sign_in = true
may_open none register = true
may_open none _ = false
may_open (some driver) book = true
may_open (some driver) journeys = true
may_open (some driver) notifications = true
may_open (some enforcement) verify = true
may_open (some enforcement) notifications = true
may_open (some admin) sign_in = false
may_open (some admin) register = false
may_open (some admin) _ = true
may_open _ _ = false

abbrev pub role_of : Option User → Option UserRole
role_of none = none
role_of (some user) = some user.role

-- The page that a place is about; the index is about none.
unfoldable pub requested : Place → Option Page
requested index = none
requested at_sign_in = some sign_in
requested at_register = some register
requested at_book = some book
requested at_journeys = some journeys
requested at_verify = some verify
requested at_dashboard = some dashboard
requested at_notifications = some notifications

-- The page that stands in for one that may not be seen.
unfoldable pub home_page : Option UserRole → Page
home_page none = sign_in
home_page (some driver) = book
home_page (some enforcement) = verify
home_page (some admin) = dashboard

-- The page asked for, if its visitor may open it, and else the visitor's own page.
unfoldable pub landing : Option UserRole → Option Page → Page
unfolding may_open home_page
landing role none = home_page role
landing role (some p) = if may_open role p then p else home_page role

module _ (match : Matcher) (finds : FindsRoutes match) where
  landing_nobody :
      (p : Place) → visit 2 match none (path_of p) ≡ some (page (landing none (requested p)))
  unfolding visit path_of landing requested
  landing_nobody index = ground (arith, finds index, finds at_sign_in)
  landing_nobody p = ground (arith, finds p, finds at_sign_in)

  -- Records have η, so this is said of every user.
  module _ (id email : String) (region : Region) (plate : Option String) where
    abbrev user_with : UserRole → User
    user_with r = record { id = id; email = email; role = r; region = region; plate_number = plate }

    landing_somebody :
        (r : UserRole) (p : Place)
        → visit 2 match (some (user_with r)) (path_of p)
          ≡ some (page (landing (some r) (requested p)))
    unfolding visit path_of landing requested
    landing_somebody driver index = ground (arith, finds index, finds at_sign_in, finds at_book)
    landing_somebody driver p = ground (arith, finds p, finds at_book)
    landing_somebody enforcement index =
        ground (arith, finds index, finds at_sign_in, finds at_verify)
    landing_somebody enforcement p = ground (arith, finds p, finds at_verify)
    landing_somebody admin index = ground (arith, finds index, finds at_sign_in, finds at_dashboard)
    landing_somebody admin p = ground (arith, finds p, finds at_dashboard)

landing-may_open :
    (role : Option UserRole) (p : Option Page) → may_open role (landing role p) ≡ true
unfolding may_open landing
landing-may_open none none = refl
landing-may_open none (some p) = ground arith
landing-may_open (some r) none = ground arith
landing-may_open (some r) (some p) = ground arith

-- Where react-router finds the routes of the table, a visit of any of their paths ends within two
-- redirects at a page that the visitor may open: the page asked for if the visitor may open it,
-- and else the sign-in page for nobody, and the booking, verification or dashboard page for a
-- driver, an enforcement agent or an admin.
pub visit_lands :
    (match : Matcher)
    → FindsRoutes match
    → (user : Option User) (p : Place)
    → (visit 2 match user (path_of p) ≡ some (page (landing (role_of user) (requested p))))
      × (may_open (role_of user) (landing (role_of user) (requested p)) ≡ true)
visit_lands match finds none p = (landing_nobody match finds p, landing-may_open none (requested p))
visit_lands match finds (some user) p = (
  landing_somebody match finds user.id user.email user.region user.plate_number user.role p,
  landing-may_open (some user.role) (requested p),
)

root_guards :
    (user : Option User) (pathname : String) (p : Place) (q : Page)
    → root user pathname (element_of p) ≡ page q
    → q ≢ sign_in
    → q ≢ register
    → may_open (role_of user) q ≡ true
unfolding root element_of may_open role_beq
root_guards none pathname p q e a b = ground arith
root_guards (some user) pathname index q e a b = ground arith
root_guards (some user) pathname p q e a b = ground arith

-- A page other than the two public ones is rendered, at whatever path and whatever react-router
-- finds for it, only to a user who may open it.
pub render_guards :
    (match : Matcher) (user : Option User) (pathname : String) (q : Page)
    → render match user pathname ≡ page q
    → q ≢ sign_in
    → q ≢ register
    → may_open (role_of user) q ≡ true
unfolding render
render_guards match user pathname q e a b = elim (Option-cases (match pathname)) [
  | inl missing ↦ ground arith
  | inr (p, found) ↦ root_guards user pathname p q (ground arith) a b
]
