-- ===== src/Notifications/View.antt =====
-- What Notifications.tsx renders.
use distributed_traffic_serv.Base.{
  ℕ, String, ◌<>◌, Bool, true, not, Option, none, some, List, [], ◌∷◌, map, lookup, nullish,
  or_text, to_lower, ToLocale, ◌==◌, if◌then◌else◌,
}
use distributed_traffic_serv.Api.Reply.{Message, shown}
use distributed_traffic_serv.Api.Notifications.{NotificationOut}
use distributed_traffic_serv.Session.Roles.{User, admin, role_eq, role_beq}
use distributed_traffic_serv.Notifications.State.{Notices}

pub record ChannelStyle : Type 0 where
  pub bg : String
  pub fg : String

abbrev style_of : String → String → ChannelStyle
style_of bg fg = record { bg = bg; fg = fg }

-- `CHANNEL_COLORS`, as the list of its entries.
abbrev pub channel_colors : List (String × ChannelStyle)
channel_colors =
    ("push", style_of "#eef2ff" "#3730a3")
    ∷ ("sms", style_of "#ecfdf5" "#065f46")
    ∷ ("email", style_of "#fef2f2" "#991b1b")
    ∷ []

pub record NoticeRow : Type 0 where
  pub message : String
  pub sent : String
  pub channel : String
  pub style : ChannelStyle

pub data NoticesBody : Type 0 where
  waiting : String → NoticesBody
  nothing : (heading body : String) → NoticesBody
  notices : List NoticeRow → NoticesBody

pub record NoticesScreen : Type 0 where
  pub heading : String
  pub user_id : String
  pub user_id_disabled : Bool
  pub limit : ℕ
  pub limits : List ℕ
  pub note : Option String
  pub error : Option Message
  pub body : NoticesBody

-- `user?.role !== 'admin'`.
unfoldable pub id_disabled : Option User → Bool
unfolding role_beq
id_disabled none = true
id_disabled (some user) = not (user.role == admin)

-- `n.channel?.toLowerCase() || 'push'`.
unfoldable pub channel_of : NotificationOut → String
unfolding to_lower
channel_of n = or_text (to_lower n.channel) "push"

module _ (to_locale : ToLocale) where
  unfoldable pub notice_row : NotificationOut → NoticeRow
  unfolding channel_of lookup
  notice_row n = record {
    message = n.message;
    sent = to_locale n.sent_at <> (" • " <> n.user_id);
    channel = channel_of n;
    style = nullish (lookup (channel_of n) channel_colors) (style_of "#f3f4f6" "#374151");
  }

  unfoldable pub notices_list : List NotificationOut → NoticesBody
  unfolding notice_row
  notices_list [] =
      nothing "No notifications yet"
        "Notifications appear here after booking events are emitted and consumed asynchronously."
  notices_list (n ∷ rest) = notices (map notice_row (n ∷ rest))

  -- The whole page.
  unfoldable pub notices_screen : Option User → Notices → NoticesScreen
  unfolding id_disabled notices_list
  notices_screen user s = record {
    heading = "Notifications";
    user_id = s.target_user_id;
    user_id_disabled = id_disabled user;
    limit = s.limit;
    limits = 10 ∷ 20 ∷ 50 ∷ 100 ∷ [];
    note = if id_disabled user then some "Showing your own notifications." else none;
    error = if shown s.error then some s.error else none;
    body = if s.loading then waiting "Loading notifications…" else notices_list s.items;
  }
