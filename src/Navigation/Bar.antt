-- ===== src/Navigation/Bar.antt =====
-- components/Navbar.tsx.
use text.Mathlib.Text.{starts_with}
use distributed_traffic_serv.Base.{
  String, Bool, Option, none, some, List, [], ◌∷◌, map, includes, filter, if◌then◌else◌, ◌==◌,
}
use distributed_traffic_serv.Session.Roles.{
  UserRole, driver, enforcement, admin, User, role_eq, role_beq,
}

pub record NavLink : Type 0 where
  pub path : String
  pub label : String
  pub roles : List UserRole

-- `navLinks`.
abbrev pub nav_links : List NavLink
nav_links =
    record { path = "/dashboard"; label = "DASHBOARD"; roles = admin ∷ [] }
    ∷ record { path = "/book"; label = "BOOK"; roles = driver ∷ admin ∷ [] }
    ∷ record { path = "/journeys"; label = "JOURNEYS"; roles = driver ∷ admin ∷ [] }
    ∷ record { path = "/verify"; label = "VERIFY"; roles = enforcement ∷ admin ∷ [] }
    ∷ record {
      path = "/notifications";
      label = "NOTIFICATIONS";
      roles = driver ∷ enforcement ∷ admin ∷ [];
    }
    ∷ []

-- `visibleLinks`.
unfoldable pub visible_links : UserRole → List NavLink
unfolding filter includes role_beq
visible_links role = filter (λ link. includes link.roles role) nav_links

-- The address of the name of the application.
unfoldable pub home_link : UserRole → String
unfolding role_beq
home_link role =
    if role == enforcement then "/verify" else if role == admin then "/dashboard" else "/journeys"

-- A rendered link: its address, its label, and whether it is the active one.
pub record RenderedLink : Type 0 where
  pub to : String
  pub label : String
  pub active : Bool

pub record Rendered : Type 0 where
  pub home : String
  pub links : List RenderedLink
  pub email : String

-- `Navbar`: nothing is rendered while nobody is signed in. The button LOGOUT calls `signOut`.
unfoldable pub navbar : Option User → String → Option Rendered
unfolding visible_links home_link
navbar none pathname = none
navbar (some user) pathname = some (record {
  home = home_link user.role;
  links =
      map
        (λ link. record {
          to = link.path;
          label = link.label;
          active = starts_with pathname link.path;
        })
        (visible_links user.role);
  email = user.email;
})
