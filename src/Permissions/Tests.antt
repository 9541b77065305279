-- ===== src/Permissions/Tests.antt =====
-- A driver and an agent.
use distributed_traffic_serv.Base.{◌≡◌, ◌⊎◌, refl, true, false, none, some, All}
use distributed_traffic_serv.Access.{success, Claims, require_enforcement}
use distributed_traffic_serv.Session.Roles.{enforcement, ie, role_to_backend, User}
use distributed_traffic_serv.Navigation.Routes.{verify}
use distributed_traffic_serv.Navigation.Settling.{may_open}
use distributed_traffic_serv.Notifications.State.{open_notices, set_limit}
use distributed_traffic_serv.Notifications.Visiting.{opened, limited}
use distributed_traffic_serv.NotificationService.Store.{may_read}
use distributed_traffic_serv.VerificationService.Calls.{forbidden}
use distributed_traffic_serv.Permissions.{IsTokenOf, verify_page-agrees, Visit-MayRead}

abbrev agent : User
agent = record { id = "e1"; email = "e@x.ie"; role = enforcement; region = ie; plate_number = none }

abbrev token : Claims
token = record { sub = "e1"; role = "enforcement_agent"; email = "e@x.ie"; iat = 0; exp = 60 }

is_token : IsTokenOf agent token
unfolding role_to_backend
is_token = record { same_id = refl; same_role = refl }

verify_page-agrees_test :
    ((may_open (some enforcement) verify ≡ true) × (require_enforcement token ≡ success token))
    ⊎ ((may_open (some enforcement) verify ≡ false) × (require_enforcement token ≡ forbidden))
verify_page-agrees_test = verify_page-agrees agent token is_token

Visit-MayRead_example :
    All (λ r. may_read token r.user_id ≡ true) (set_limit 50 (open_notices (some agent))).in_flight
Visit-MayRead_example = Visit-MayRead agent token is_token (limited 50 opened)
