-- ===== src/Permissions.antt =====
-- What the pages let a user do, against what the services let the token of the user do.
mod Tests
use distributed_traffic_serv.Base.{
  ◌≡◌, refl, sym, ap, ◌∙◌, true, false, some, List, [], ◌∷◌, All, All-imp, ◌⊎◌, inl, inr,
  Bool-cases, ◌==◌, eq_iff, not, arith,
}
use distributed_traffic_serv.Access.{Outcome, success, Claims, require_enforcement}
use distributed_traffic_serv.Session.Roles.{
  UserRole, driver, enforcement, admin, role_to_backend, User, role_eq, role_beq,
}
use distributed_traffic_serv.Navigation.Routes.{verify}
use distributed_traffic_serv.Navigation.Settling.{may_open}
use distributed_traffic_serv.Notifications.State.{Asked, Notices}
use distributed_traffic_serv.Notifications.View.{id_disabled}
use distributed_traffic_serv.Notifications.Visiting.{Visit, Visit-own}
use distributed_traffic_serv.NotificationService.Store.{may_read}
use distributed_traffic_serv.NotificationService.Reading.{MayRead, may_read_iff}
use distributed_traffic_serv.VerificationService.Calls.{forbidden}

-- The token of a user, as a login of the user gives it.
pub record IsTokenOf (user : User) (c : Claims) : Type 0 where
  pub same_id : c.sub ≡ user.id
  pub same_role : c.role ≡ role_to_backend user.role

-- The page that checks plates is open to the very users whose token the verification service takes.
pub verify_page-agrees :
    (user : User) (c : Claims)
    → IsTokenOf user c
    → ((may_open (some user.role) verify ≡ true) × (require_enforcement c ≡ success c))
      ⊎ ((may_open (some user.role) verify ≡ false) × (require_enforcement c ≡ forbidden))
verify_page-agrees user c is = by_role user.role is.same_role
  where
    by_role :
        (r : UserRole)
        → c.role ≡ role_to_backend r
        → ((may_open (some r) verify ≡ true) × (require_enforcement c ≡ success c))
          ⊎ ((may_open (some r) verify ≡ false) × (require_enforcement c ≡ forbidden))
    by_role driver e =
        inr (unfold may_open in refl, unfold require_enforcement role_to_backend in rw e refl)
    by_role enforcement e =
        inl (unfold may_open in refl, unfold require_enforcement role_to_backend in rw e refl)
    by_role admin e =
        inl (unfold may_open in refl, unfold require_enforcement role_to_backend in rw e refl)

disabled_unless_admin : (user : User) → (id_disabled (some user) ≡ true) ⊎ (user.role ≡ admin)
unfolding id_disabled
disabled_unless_admin user = elim (Bool-cases (user.role == admin)) [
  | inl chief ↦ inr ((role_eq.same_iff user.role admin).0 chief)
  | inr other ↦ inl (ground (arith, other))
]

All-any :
    (c : Claims) (asked : List Asked) → c.role ≡ "admin" → All (λ r. MayRead c r.user_id) asked
All-any c [] e = tt
All-any c (r ∷ asked) e = (inr e, All-any c asked e)

-- Whatever a user does on the notifications page, the notification service refuses none of the
-- requests that are under way for being another user's.
pub Visit-MayRead :
    (user : User) (c : Claims)
    → IsTokenOf user c
    → {s : Notices} → Visit user s
    → All (λ r. may_read c r.user_id ≡ true) s.in_flight
unfolding role_to_backend
Visit-MayRead user c is {s} v = elim (disabled_unless_admin user) [
  | inl disabled ↦
      let own = (Visit-own user disabled v).1 in
      All-imp
        (λ r (e : r.user_id ≡ user.id).
          (may_read_iff c r.user_id 0 []).1 (inl (is.same_id ∙ sym e)))
        s.in_flight own
  | inr chief ↦
      let role : c.role ≡ "admin" = is.same_role ∙ ap role_to_backend chief in
      All-imp (λ r m. (may_read_iff c r.user_id 0 []).1 m) s.in_flight (All-any c s.in_flight role)
]
