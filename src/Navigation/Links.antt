-- ===== src/Navigation/Links.antt =====
-- The bar and the route table agree.
use distributed_traffic_serv.Base.{
  ◌≡◌, refl, String, true, Option, some, arith, All, map, includes, ◌↔◌, string_eq,
}
use distributed_traffic_serv.Session.Roles.{UserRole, Region, driver, enforcement, admin, User}
use distributed_traffic_serv.Navigation.Routes.{
  Page, sign_in, register, book, journeys, verify, dashboard, notifications, Place, at_sign_in,
  at_register, at_book, at_journeys, at_verify, at_dashboard, at_notifications, path_of, Matcher,
  FindsRoutes,
}
use distributed_traffic_serv.Navigation.Guard.{page, render}
use distributed_traffic_serv.Navigation.Bar.{visible_links, home_link}
use distributed_traffic_serv.Navigation.Settling.{may_open}

-- A link opens a page at once: its path renders the page, with no redirect on the way.
abbrev pub Opens : Matcher → User → String → Type 0
Opens match user path =
    (q : Page) × (render match (some user) path ≡ page q) × (may_open (some user.role) q ≡ true)

module _ (match : Matcher) (finds : FindsRoutes match) (id email : String) (region : Region)
    (plate : Option String) where
  abbrev user_with : UserRole → User
  user_with r = record { id = id; email = email; role = r; region = region; plate_number = plate }

  home-Opens : (r : UserRole) → Opens match (user_with r) (home_link r)
  unfolding render path_of home_link may_open
  home-Opens driver = (journeys, ground (arith, finds at_journeys), refl)
  home-Opens enforcement = (verify, ground (arith, finds at_verify), refl)
  home-Opens admin = (dashboard, ground (arith, finds at_dashboard), refl)

  links_open : (r : UserRole) → All (λ link. Opens match (user_with r) link.path) (visible_links r)
  unfolding render path_of visible_links may_open
  links_open driver = (
    (book, ground (arith, finds at_book), refl),
    (
      (journeys, ground (arith, finds at_journeys), refl),
      ((notifications, ground (arith, finds at_notifications), refl), tt),
    ),
  )
  links_open enforcement = (
    (verify, ground (arith, finds at_verify), refl),
    ((notifications, ground (arith, finds at_notifications), refl), tt),
  )
  links_open admin = (
    (dashboard, ground (arith, finds at_dashboard), refl),
    (
      (book, ground (arith, finds at_book), refl),
      (
        (journeys, ground (arith, finds at_journeys), refl),
        (
          (verify, ground (arith, finds at_verify), refl),
          ((notifications, ground (arith, finds at_notifications), refl), tt),
        ),
      ),
    ),
  )

-- Where react-router finds the routes of the table, each link that the bar shows a user, and the
-- link on the application's name, opens at once a page that this user may open.
pub links-Opens :
    (match : Matcher)
    → FindsRoutes match
    → (user : User)
    → All (λ link. Opens match user link.path) (visible_links user.role)
      × Opens match user (home_link user.role)
links-Opens match finds user = (
  links_open match finds user.id user.email user.region user.plate_number user.role,
  home-Opens match finds user.id user.email user.region user.plate_number user.role,
)

-- The place of a page.
unfoldable pub place_of : Page → Place
place_of sign_in = at_sign_in
place_of register = at_register
place_of book = at_book
place_of journeys = at_journeys
place_of verify = at_verify
place_of dashboard = at_dashboard
place_of notifications = at_notifications

-- The bar shows a user the link to a page exactly when the user may open that page.
pub visible_links_complete :
    (role : UserRole) (q : Page)
    → (includes (map (λ link. link.path) (visible_links role)) (path_of (place_of q)) ≡ true)
      ↔ (may_open (some role) q ≡ true)
unfolding visible_links path_of place_of may_open includes
visible_links_complete driver sign_in = ground arith
visible_links_complete driver q = ground arith
visible_links_complete enforcement sign_in = ground arith
visible_links_complete enforcement q = ground arith
visible_links_complete admin sign_in = ground arith
visible_links_complete admin q = ground arith
