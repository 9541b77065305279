-- ===== src/Api/Notifications.antt =====
-- api/notifications.ts.
use distributed_traffic_serv.Base.{ℕ, String, ◌<>◌, Bool}
use distributed_traffic_serv.Base.Numeral.{to_decimal}
use distributed_traffic_serv.Api.Client.{Method, get}

pub record NotificationOut : Type 0 where
  pub id : String
  pub user_id : String
  pub message : String
  pub channel : String
  pub sent_at : String
  pub read : Bool

abbrev pub default_limit : ℕ
default_limit = 20

unfoldable pub get_notifications : String → ℕ → Method × String
get_notifications user_id limit =
    (get, "/notifications/" <> (user_id <> ("?limit=" <> to_decimal limit)))
