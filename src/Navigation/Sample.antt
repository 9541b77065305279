-- ===== src/Navigation/Sample.antt =====
-- A matcher that finds the eight paths, spelled as in the table of routes.
use distributed_traffic_serv.Base.{refl, [], ◌∷◌, string_eq, lookup}
use distributed_traffic_serv.Navigation.Routes.{
  index, at_sign_in, at_register, at_book, at_journeys, at_verify, at_dashboard, at_notifications,
  path_of, Matcher, FindsRoutes,
}

unfoldable pub exact : Matcher
unfolding lookup
exact path = lookup path (
    ("/", index)
    ∷ ("/signin", at_sign_in)
    ∷ ("/register", at_register)
    ∷ ("/book", at_book)
    ∷ ("/journeys", at_journeys)
    ∷ ("/verify", at_verify)
    ∷ ("/dashboard", at_dashboard)
    ∷ ("/notifications", at_notifications)
    ∷ [])

pub exact-FindsRoutes : FindsRoutes exact
unfolding exact path_of
exact-FindsRoutes index = refl
exact-FindsRoutes p = refl
