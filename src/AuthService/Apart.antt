-- ===== src/AuthService/Apart.antt =====
-- How the accounts of two nodes are kept apart.
use mathlib.Core.List.{Memᴰ}
use mathlib.Core.List.Memᴰ
use mathlib.Core.Path.{subst}
use distributed_traffic_serv.Base.{
  ℕ, ◌+◌, ◌≤◌, ◌<◌, ◌≡◌, ◌⊎◌, sym, ap, ◌∙◌, ltb, String, ◌<>◌, true, false, some, List, [], ◌∷◌,
  lookup, to_lower, string_eq, Bool-cases, inl, inr, arith,
}
use distributed_traffic_serv.AuthService.Password.{PwdContext}
use distributed_traffic_serv.AuthService.Accounts.{
  Account, Tables, Keys, day, email_key, is_claimed,
}
use distributed_traffic_serv.AuthService.Register.{RegisterRequest, Surroundings, register_user}
use distributed_traffic_serv.AuthService.Claiming.{Keeps, is_claimed_iff}
use distributed_traffic_serv.AuthService.Registering.{register_user-Ends}
use distributed_traffic_serv.AuthService.Cluster.{
  Cluster, Step, register_east, register_west, replicate_east, replicate_west, Reach, here, next,
  users_kept, Wrote, Ends-Wrote,
}

same_key : (a b : String) → to_lower a ≡ to_lower b → email_key a ≡ email_key b
unfolding email_key
same_key a b e = ap (λ t. "email:registered:" <> t) e

-- A user of the last day has the claim of the email.
abbrev IsHeld : Keys → ℕ → Account → Type 0
IsHeld keys clock u =
    (u.created_at ≤ clock)
    × (clock < u.created_at + day → lookup (email_key u.email) keys ≡ some (u.created_at + day))

-- The users of two nodes: any two of one email are a day apart.
record Separated (keys : Keys) (clock : ℕ) (us vs : List Account) : Type 0 where
  ours : (u : Account) → Memᴰ u us → IsHeld keys clock u
  theirs : (v : Account) → Memᴰ v vs → IsHeld keys clock v
  apart :
      (u v : Account)
      → Memᴰ u us
      → Memᴰ v vs
      → email_key u.email ≡ email_key v.email
      → (u.created_at + day ≤ v.created_at) ⊎ (v.created_at + day ≤ u.created_at)

swapped :
    (keys : Keys) (clock : ℕ) (us vs : List Account)
    → Separated keys clock us vs
    → Separated keys clock vs us
swapped keys clock us vs s = record {
  ours = s.theirs;
  theirs = s.ours;
  apart = λ v u m n e. elim (s.apart u v n m (sym e)) [ inl h ↦ inr h | inr h ↦ inl h ];
}

IsHeld-later :
    (now clock : ℕ) (keys keys' : Keys) (u : Account)
    → Keeps now keys keys'
    → clock ≤ now
    → IsHeld keys clock u
    → IsHeld keys' now u
IsHeld-later now clock keys keys' u keeps l (past, held) =
    (omega arith, λ recent. keeps _ _ (held (omega arith)) recent)

-- Where the claim of an email is free, its users are a day old.
old_of_free :
    (now clock : ℕ) (keys : Keys) (v : Account)
    → clock ≤ now
    → IsHeld keys clock v
    → is_claimed (email_key v.email) now keys ≡ false
    → v.created_at + day ≤ now
old_of_free now clock keys v l (past, held) free =
    elim (Bool-cases (ltb now (v.created_at + day))) [
      | inr late ↦ ground (arith, late)
      | inl recent ↦
          let before : clock < v.created_at + day = ground (arith, recent) in
          absurd (
            ground
              (arith, is_claimed_iff _ now (v.created_at + day) keys (held before), recent, free))
    ]

module _ (now clock : ℕ) (keys keys' : Keys) (us vs : List Account) (l : clock ≤ now)
    (s : Separated keys clock us vs) (keeps : Keeps now keys keys') where
  kept_ours : (u : Account) → Memᴰ u us → IsHeld keys' now u
  kept_ours u m = IsHeld-later now clock keys keys' u keeps l (s.ours u m)

  kept_theirs : (v : Account) → Memᴰ v vs → IsHeld keys' now v
  kept_theirs v m = IsHeld-later now clock keys keys' v keeps l (s.theirs v m)

  with_row :
      (u : Account)
      → u.created_at ≡ now
      → is_claimed (email_key u.email) now keys ≡ false
      → lookup (email_key u.email) keys' ≡ some (now + day)
      → Separated keys' now (u ∷ us) vs
  with_row u made free claim = record { ours = ours_and; theirs = kept_theirs; apart = apart_and }
    where
      ours_and : (w : Account) → Memᴰ w (u ∷ us) → IsHeld keys' now w
      ours_and w (Memᴰ.tail m) = kept_ours w m
      ours_and w (Memᴰ.head e) = subst (IsHeld keys' now) (sym e) (omega arith, λ _. rw made claim)

      apart_and :
          (w v : Account)
          → Memᴰ w (u ∷ us)
          → Memᴰ v vs
          → email_key w.email ≡ email_key v.email
          → (w.created_at + day ≤ v.created_at) ⊎ (v.created_at + day ≤ w.created_at)
      apart_and w v (Memᴰ.tail m) n e = s.apart w v m n e
      apart_and w v (Memᴰ.head h) n e =
          let same : email_key u.email ≡ email_key v.email =
            ap (λ a. email_key a.email) (sym h) ∙ e in
          let old : v.created_at + day ≤ now =
            old_of_free now clock keys v l (s.theirs v n)
              (subst (λ k. is_claimed k now keys ≡ false) same free) in
          let at : w.created_at ≡ now = ap (λ a. a.created_at) h ∙ made in inr (omega arith)

  written : (us' : List Account) → Wrote now keys keys' us us' → Separated keys' now us' vs
  written us' w = elim w.rows [
    | inl e ↦
        subst (λ x. Separated keys' now x vs) (sym e)
          (record { ours = kept_ours; theirs = kept_theirs; apart = s.apart })
    | inr (u, e, made, free, claim, new) ↦
        subst (λ x. Separated keys' now x vs) (sym e) (with_row u made free claim)
  ]

registered-Separated :
    (pwd : PwdContext) (req : RegisterRequest) (env : Surroundings) (keys : Keys) (tables : Tables)
    (clock : ℕ) (vs : List Account)
    → clock ≤ env.now
    → env.refreshes ≡ true
    → Separated keys clock tables.users vs
    → Separated
        (register_user pwd req env keys tables).keys
        env.now
        (register_user pwd req env keys tables).tables.users
        vs
registered-Separated pwd req env keys tables clock vs l h s =
    let w : Wrote env.now keys (register_user pwd req env keys tables).keys tables.users
        (register_user pwd req env keys tables).tables.users =
      Ends-Wrote pwd req env keys tables (register_user-Ends pwd req env keys tables) h in
    written env.now clock keys _ tables.users vs l s w.keeps _ w

abbrev IsApart : Cluster → Type 0
IsApart c = Separated c.keys c.clock c.east.users c.west.users

Step-IsApart : {c d : Cluster} → Step c d → IsApart c → IsApart d
Step-IsApart {c} (register_east pwd req env l h) s =
    registered-Separated pwd req env c.keys c.east c.clock c.west.users l h s
Step-IsApart {c} (register_west pwd req env l h) s =
    swapped _ _ _ _
      (registered-Separated pwd req env c.keys c.west c.clock c.east.users l h (swapped _ _ _ _ s))
Step-IsApart {c} (replicate_east answers event) s =
    subst (λ us. Separated c.keys c.clock us c.west.users) (sym (users_kept answers event c.east)) s
Step-IsApart {c} (replicate_west answers event) s =
    subst (λ vs. Separated c.keys c.clock c.east.users vs) (sym (users_kept answers event c.west)) s

Reach-IsApart : {start c : Cluster} → Reach start c → IsApart start → IsApart c
Reach-IsApart here s = s
Reach-IsApart (next r st) s = Step-IsApart st (Reach-IsApart r s)

-- Whatever is registered, at times that do not go back, at two nodes that start with no accounts and
-- share the keys of Redis, and whatever of the replication is handled, as long as no refresh fails
-- behind a commit and no key goes before it expires: accounts of the two nodes whose emails differ in
-- case at most are registered a day apart or more.
pub emails_a_day_apart :
    {start c : Cluster} (u v : Account)
    → start.east.users ≡ []
    → start.west.users ≡ []
    → Reach start c
    → Memᴰ u c.east.users
    → Memᴰ v c.west.users
    → to_lower u.email ≡ to_lower v.email
    → (u.created_at + day ≤ v.created_at) ⊎ (v.created_at + day ≤ u.created_at)
emails_a_day_apart {start} u v none_east none_west r m n e =
    let empty : IsApart start = record {
      ours = λ a k. absurd (Memᴰ.not-nil (subst (Memᴰ a) none_east k));
      theirs = λ a k. absurd (Memᴰ.not-nil (subst (Memᴰ a) none_west k));
      apart = λ a b k _ _. absurd (Memᴰ.not-nil (subst (Memᴰ a) none_east k));
    } in
    (Reach-IsApart r empty).apart u v m n (same_key u.email v.email e)
