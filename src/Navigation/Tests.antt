-- ===== src/Navigation/Tests.antt =====
-- The theorems on navigation with a matcher that finds the eight paths, spelled as in the table.
use distributed_traffic_serv.Base.{◌≡◌, ◌↔◌, refl, true, none, some, All, map, includes, string_eq}
use distributed_traffic_serv.Session.Roles.{enforcement, gb, User}
use distributed_traffic_serv.Navigation.Routes.{verify, at_book, path_of}
use distributed_traffic_serv.Navigation.Sample.{exact, exact-FindsRoutes}
use distributed_traffic_serv.Navigation.Guard.{page, render, visit}
use distributed_traffic_serv.Navigation.Bar.{visible_links, home_link}
use distributed_traffic_serv.Navigation.Settling.{
  may_open, role_of, landing, requested, visit_lands, render_guards,
}
use distributed_traffic_serv.Navigation.Links.{Opens, links-Opens, place_of, visible_links_complete}

abbrev agent : User
agent = record { id = "u1"; email = "a@b.ie"; role = enforcement; region = gb; plate_number = none }

visit_lands_example :
    (visit 2 exact (some agent) (path_of at_book)
      ≡ some (page (landing (role_of (some agent)) (requested at_book))))
    × (may_open (role_of (some agent)) (landing (role_of (some agent)) (requested at_book)) ≡ true)
visit_lands_example = visit_lands exact exact-FindsRoutes (some agent) at_book

agent_at_book : visit 2 exact (some agent) "/book" ≡ some (page verify)
unfolding visit exact
agent_at_book = refl

render_guards_example : may_open (role_of (some agent)) verify ≡ true
unfolding render exact
render_guards_example = render_guards exact (some agent) "/verify" verify refl (λ e. cc) (λ e. cc)

links-Opens_test :
    All (λ link. Opens exact agent link.path) (visible_links agent.role)
    × Opens exact agent (home_link agent.role)
links-Opens_test = links-Opens exact exact-FindsRoutes agent

visible_links_complete_example :
    (includes (map (λ link. link.path) (visible_links enforcement)) (path_of (place_of verify))
      ≡ true)
    ↔ (may_open (some enforcement) verify ≡ true)
visible_links_complete_example = visible_links_complete enforcement verify
