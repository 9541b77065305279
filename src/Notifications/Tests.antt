-- ===== src/Notifications/Tests.antt =====
-- Notifications.tsx at concrete inputs.
use distributed_traffic_serv.Base.{
  ◌≡◌, ◌<◌, refl, String, true, false, none, some, [], ◌∷◌, map, length, string_eq, nat_eq, All,
}
use distributed_traffic_serv.Api.Reply.{ok}
use distributed_traffic_serv.Api.Notifications.{NotificationOut}
use distributed_traffic_serv.Session.Roles.{driver, admin, ie, User, role_eq}
use distributed_traffic_serv.Notifications.State.{
  Notices, open_notices, set_limit, set_target, notices_settled,
}
use distributed_traffic_serv.Notifications.View.{notice_row, id_disabled}
use distributed_traffic_serv.Notifications.Visiting.{Visit, opened, limited, Visit-own, Visit-waits}

abbrev somebody : User
somebody = record { id = "u1"; email = "a@b.ie"; role = driver; region = ie; plate_number = none }

abbrev notice : String → NotificationOut
notice user_id = record {
  id = "n";
  user_id = user_id;
  message = "Booking confirmed";
  channel = "SMS";
  sent_at = "2026-04-01";
  read = false;
}

colour_test : (notice_row (λ t. t) (notice "u1")).style.bg ≡ "#ecfdf5"
unfolding notice_row
colour_test = refl

abbrev two_asked : Notices
two_asked = set_limit 50 (open_notices (some somebody))

-- The admin asks for another user, and the answer for the first comes last.
abbrev chief : User
chief = record somebody { role = admin }

abbrev overtaken : Notices
overtaken =
    notices_settled 0 (ok (notice "u1" ∷ []))
      (notices_settled 1 (ok (notice "u2" ∷ [])) (set_target "u2" (open_notices (some chief))))

overtaken_test : map (λ n. n.user_id) overtaken.items ≡ "u1" ∷ []
unfolding notices_settled
overtaken_test = refl

overtaken_target_test : overtaken.target_user_id ≡ "u2"
unfolding notices_settled set_target open_notices
overtaken_target_test = refl

two_asked-Visit : Visit somebody two_asked
two_asked-Visit = limited 50 opened

Visit-own_test : (two_asked.target_user_id ≡ "u1") × All (λ r. r.user_id ≡ "u1") two_asked.in_flight
unfolding id_disabled
Visit-own_test = Visit-own somebody refl two_asked-Visit

two_asked_loading : two_asked.loading ≡ true
unfolding set_limit open_notices
two_asked_loading = refl

Visit-waits_test : 0 < length two_asked.in_flight
Visit-waits_test = Visit-waits somebody refl two_asked-Visit two_asked_loading
