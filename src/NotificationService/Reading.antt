-- ===== src/NotificationService/Reading.antt =====
-- What a call for the notifications of an id answers.
use mathlib.Core.List.{Memᴰ}
use mathlib.Core.Path.{subst}
use distributed_traffic_serv.Base.{
  ℕ, ◌≤◌, ◌≡◌, refl, sym, ◌↔◌, leb, String, true, false, ◌&&◌, List, map, ◌==◌, string_eq, eq_iff,
  ◌⊎◌, length, length-take, length-filter, count, take_all, filter, mem-filter, mem-sort_by,
  length-sort_by, sort_by, sort_by-All, sort_by-InOrder, InOrder, InOrder-take, All, All-take,
  All-of-filter, All-imp, Bool-cases, inl, inr, arith,
}
use distributed_traffic_serv.Access.{Outcome, success, refusal, Claims}
use distributed_traffic_serv.NotificationService.Consumer.{Notification}
use distributed_traffic_serv.NotificationService.Store.{
  is_older, list_notifications, NotificationOut, shown, may_read,
}

-- Rows of one user, newest first and no more than the limit; all of the user's where they are no more.
pub record IsListing (user_id : String) (limit : ℕ) (table rows : List Notification) : Type 0 where
  pub own : All (λ n. n.user_id ≡ user_id) rows
  pub newest_first : InOrder is_older rows
  pub few : length rows ≤ limit
  pub complete :
      (n : Notification)
      → Memᴰ n table
      → n.user_id ≡ user_id
      → count (λ m. m.user_id == user_id) table ≤ limit
      → Memᴰ n rows

is_older_asym : (m n : Notification) → is_older m n ≡ true → is_older n m ≡ false
is_older_asym m n h = ground arith

is_older_negtrans :
    (a b c : Notification) → is_older a b ≡ false → is_older b c ≡ false → is_older a c ≡ false
is_older_negtrans a b c h k = ground arith

pub list_notifications-IsListing :
    (user_id : String) (limit : ℕ) (table : List Notification)
    → IsListing user_id limit table (list_notifications user_id limit table)
unfolding list_notifications
list_notifications-IsListing user_id limit table =
    let kept : List Notification = filter (λ n. n.user_id == user_id) table in
    let owned : All (λ n. n.user_id ≡ user_id) kept =
      All-imp (λ n h. (eq_iff n.user_id user_id).0 h) kept
        (All-of-filter (λ n. n.user_id == user_id) table) in
    record {
      own = All-take _ limit (sort_by is_older kept) (sort_by-All is_older _ kept owned);
      newest_first =
          InOrder-take is_older limit (sort_by is_older kept)
            (sort_by-InOrder is_older is_older_asym is_older_negtrans kept);
      few = omega (arith, length-take limit (sort_by is_older kept));
      complete = λ n m own fits.
          let listed : Memᴰ n (sort_by is_older kept) =
            mem-sort_by is_older kept
              (mem-filter (λ m. m.user_id == user_id) table m ((eq_iff n.user_id user_id).1 own)) in
          let size = length-sort_by is_older kept in
          let counted = length-filter (λ m. m.user_id == user_id) table in
          subst (λ xs. Memᴰ n xs)
            (sym (take_all limit (sort_by is_older kept) (omega (arith, size, counted, fits))))
            listed;
    }

-- Who may read the notifications of an id: its user, and an admin.
abbrev pub MayRead : Claims → String → Type 0
MayRead user user_id = (user.sub ≡ user_id) ⊎ (user.role ≡ "admin")

module _ (user : Claims) (user_id : String) (limit : ℕ) (table : List Notification) where
  -- The three answers: to a limit out of range; to a caller who is neither the user nor an admin; and
  -- the listing.
  pub data Answers : Outcome (List NotificationOut) → Type 0 where
    bad_limit : (leb 1 limit && leb limit 100) ≡ false → Answers (refusal 422 "limit")
    forbidden :
        ¬ MayRead user user_id → Answers (refusal 403 "Cannot view another user's notifications")
    listed :
        MayRead user user_id
        → (rows : List Notification) → IsListing user_id limit table rows
        → Answers (success (map shown rows))

  pub may_read_iff : (may_read user user_id ≡ true) ↔ MayRead user user_id
  unfolding may_read
  may_read_iff = (
    λ h. elim (Bool-cases (user.sub == user_id)) [
      | inl own ↦ inl ((eq_iff user.sub user_id).0 own)
      | inr other ↦ inr ((eq_iff user.role "admin").0 (ground (arith, h, other)))
    ],
    λ h. elim h [
      | inl own ↦ let e = (eq_iff user.sub user_id).1 own in rw e refl
      | inr chief ↦ let e = (eq_iff user.role "admin").1 chief in ground (arith, e)
    ],
  )
