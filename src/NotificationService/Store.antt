-- ===== src/NotificationService/Store.antt =====
-- store.py and routes.py: the notifications of a user.
use distributed_traffic_serv.Base.{
  ℕ, ltb, leb, String, Bool, false, not, ◌&&◌, List, map, ◌==◌, string_eq, take, filter, sort_by,
  if◌then◌else◌,
}
use distributed_traffic_serv.Access.{Outcome, success, refusal, Claims}
use distributed_traffic_serv.NotificationService.Consumer.{Channel, Notification}

-- `ORDER BY sent_at DESC`; rows of one time, whose order SQL leaves open, keep theirs.
abbrev pub is_older : Notification → Notification → Bool
is_older m n = ltb m.sent_at n.sent_at

-- `list_notifications`.
unfoldable pub list_notifications : String → ℕ → List Notification → List Notification
unfolding filter sort_by
list_notifications user_id limit table =
    take limit (sort_by is_older (filter (λ n. n.user_id == user_id) table))

-- NotificationOut, less the id.
pub record NotificationOut : Type 0 where
  pub user_id : String
  pub message : String
  pub channel : Channel
  pub sent_at : ℕ
  pub read : Bool

abbrev pub shown : Notification → NotificationOut
shown n = record {
  user_id = n.user_id;
  message = n.message;
  channel = n.channel;
  sent_at = n.sent_at;
  read = false;
}

-- Whether a caller may read the notifications of an id.
unfoldable pub may_read : Claims → String → Bool
may_read user user_id = not (not (user.sub == user_id) && not (user.role == "admin"))

-- `get_notifications`: FastAPI checks the limit in front of the handler.
unfoldable pub get_notifications :
    Claims → String → ℕ → List Notification → Outcome (List NotificationOut)
unfolding list_notifications may_read
get_notifications user user_id limit table =
    if not (leb 1 limit && leb limit 100)
    then refusal 422 "limit"
    else if not (may_read user user_id)
    then refusal 403 "Cannot view another user's notifications"
    else success (map shown (list_notifications user_id limit table))
