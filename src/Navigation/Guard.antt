-- ===== src/Navigation/Guard.antt =====
-- `defaultRedirect`, `RoleGuard` and `Root`: what is rendered at a path.
use distributed_traffic_serv.Base.{
  String, not, Option, none, some, List, [], ◌∷◌, includes, string_eq, if◌then◌else◌, ℕ, zero, suc,
}
use distributed_traffic_serv.Session.Roles.{
  UserRole, driver, enforcement, admin, User, role_eq, role_beq,
}
use distributed_traffic_serv.Navigation.Routes.{
  Page, Element, navigate, show, guarded, Place, element_of, Matcher,
}

-- `defaultRedirect`, which routes.tsx and Root.tsx both declare.
unfoldable pub default_redirect : UserRole → String
default_redirect driver = "/book"
default_redirect enforcement = "/verify"
default_redirect admin = "/dashboard"

-- What a render comes to: a page, a redirect, or the error page of the router.
pub data Screen : Type 0 where
  page : Page → Screen
  redirect : String → Screen
  not_found : Screen

-- `RoleGuard`.
unfoldable pub role_guard : List UserRole → Page → Option User → Screen
unfolding includes role_beq
role_guard roles p none = redirect "/signin"
role_guard roles p (some user) =
    if includes roles user.role then page p else redirect (default_redirect user.role)

-- `<Outlet />`: the element of the route that was found.
unfoldable pub outlet : Element → Option User → Screen
unfolding role_guard
outlet (navigate to) user = redirect to
outlet (show p) user = page p
outlet (guarded roles p) user = role_guard roles p user

-- `PUBLIC_ROUTES`.
abbrev pub public_routes : List String
public_routes = "/signin" ∷ "/register" ∷ []

-- `Root`, around the outlet.
unfoldable pub root : Option User → String → Element → Screen
unfolding outlet includes default_redirect
root none pathname element =
    if not (includes public_routes pathname) then redirect "/signin" else outlet element none
root (some user) pathname element =
    if includes public_routes pathname
    then redirect (default_redirect user.role)
    else outlet element (some user)

-- A pathname that finds no route shows the router's error page, without `Root`.
render_found : Option User → String → Option Place → Screen
unfolding root element_of
render_found user pathname none = not_found
render_found user pathname (some place) = root user pathname (element_of place)

unfoldable pub render : Matcher → Option User → String → Screen
unfolding render_found
render match user pathname = render_found user pathname (match pathname)

-- Following redirects, with fuel; `none` if it runs out.
unfoldable pub follow : ℕ → Matcher → Option User → Screen → Option Screen
unfolding render
follow zero match user (redirect to) = none
follow (suc fuel) match user (redirect to) = follow fuel match user (render match user to)
follow fuel match user screen = some screen

-- Where a visit of a path ends, with at most the given number of redirects.
unfoldable pub visit : ℕ → Matcher → Option User → String → Option Screen
unfolding follow
visit fuel match user pathname = follow fuel match user (render match user pathname)
