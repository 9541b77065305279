-- ===== src/Notifications/State.antt =====
-- The state of the page, `load`, the effects and the handlers.
use distributed_traffic_serv.Base.{
  ℕ, zero, suc, String, Bool, true, false, Option, none, some, List, [], ◌∷◌, ◌++◌, truthy, ◌==◌,
  string_eq, nat_eq, if◌then◌else◌,
}
use distributed_traffic_serv.Api.Reply.{Message, text, Reply, ok, failed, detail_or}
use distributed_traffic_serv.Api.Notifications.{NotificationOut, default_limit}
use distributed_traffic_serv.Session.Roles.{User}

-- A request of `getNotifications` that has not been answered.
pub record Asked : Type 0 where
  pub user_id : String
  pub limit : ℕ

pub record Notices : Type 0 where
  pub items : List NotificationOut
  pub target_user_id : String
  pub limit : ℕ
  pub loading : Bool
  pub error : Message
  pub in_flight : List Asked

-- `user?.id ?? ''`.
abbrev pub own_id : Option User → String
own_id none = ""
own_id (some user) = user.id

unfoldable pub initial_notices : Option User → Notices
initial_notices user = record {
  items = [];
  target_user_id = own_id user;
  limit = default_limit;
  loading = true;
  error = text "";
  in_flight = [];
}

-- `load` up to its `await`: nothing for an empty id.
unfoldable pub load_notices : Notices → Notices
load_notices s =
    if truthy s.target_user_id
    then record s {
      loading = true;
      error = text "";
      in_flight = s.in_flight ++ (record { user_id = s.target_user_id; limit = s.limit } ∷ []);
    }
    else s

-- The page behind its first render. The first effect sets the id that the state has already, and
-- the second loads.
unfoldable pub open_notices : Option User → Notices
unfolding load_notices initial_notices
open_notices user = load_notices (initial_notices user)

-- The handler of the input, and the effect on `[targetUserId, limit]` behind it.
unfoldable pub set_target : String → Notices → Notices
unfolding load_notices
set_target id s =
    if id == s.target_user_id then s else load_notices (record s { target_user_id = id })

-- The handler of the selection, and the same effect.
unfoldable pub set_limit : ℕ → Notices → Notices
unfolding load_notices
set_limit limit s = if limit == s.limit then s else load_notices (record s { limit = limit })

abbrev pub remove_at {ℓ} : {A : Type ℓ} → ℕ → List A → List A
remove_at k [] = []
remove_at zero (x ∷ xs) = xs
remove_at (suc k) (x ∷ xs) = x ∷ remove_at k xs

-- What `load` does at the answer to the request that stands at `k` among those under way.
unfoldable pub notices_settled : ℕ → Reply (List NotificationOut) → Notices → Notices
unfolding detail_or
notices_settled k (ok items) s = record s {
  items = items;
  loading = false;
  in_flight = remove_at k s.in_flight;
}
notices_settled k (failed e) s = record s {
  error = detail_or e "Failed to load notifications.";
  loading = false;
  in_flight = remove_at k s.in_flight;
}
