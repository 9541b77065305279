-- ===== src/AuthService/Lasting.antt =====
-- An account lasts at the node where it is registered.
use mathlib.Core.Path.{subst}
use distributed_traffic_serv.Base.{
  ℕ, ◌≡◌, refl, sym, ap, ◌∙◌, String, true, false, some, is_some, List, ◌∷◌, ◌==◌, string_eq,
  eq_iff, eq_refl, Bool-cases, inl, inr, arith,
}
use distributed_traffic_serv.Access.{Jwt}
use distributed_traffic_serv.AuthService.Password.{PwdContext}
use distributed_traffic_serv.AuthService.Accounts.{Account, Tables, find_email, Keys}
use distributed_traffic_serv.AuthService.Register.{
  RegisterRequest, Surroundings, registered, register_user,
}
use distributed_traffic_serv.AuthService.Login.{first_of, known_email, login}
use distributed_traffic_serv.AuthService.Registering.{register_user-Ends}
use distributed_traffic_serv.AuthService.SigningIn.{
  Completes, registered-Completes, welcome, login-known,
}
use distributed_traffic_serv.AuthService.Cluster.{
  Cluster, Step, register_east, register_west, replicate_east, replicate_west, Reach, here, next,
  users_kept, Wrote, Ends-Wrote,
}

find_email-first :
    (email : String) (user : Account) (users : List Account)
    → user.email ≡ email
    → find_email email (user ∷ users) ≡ some user
unfolding find_email
find_email-first email user users e = rw e (rw (eq_refl email) refl)

-- A row that is put in front, of an email that was not there, hides none.
find_email-behind :
    (email : String) (u a : Account) (users : List Account)
    → find_email email users ≡ some a
    → is_some (find_email u.email users) ≡ false
    → find_email email (u ∷ users) ≡ some a
unfolding find_email
find_email-behind email u a users found new = elim (Bool-cases (u.email == email)) [
  | inr other ↦ rw other found
  | inl same ↦
      let equal : u.email ≡ email = (eq_iff u.email email).0 same in
      let there : is_some (find_email u.email users) ≡ true = rw equal (ap is_some found) in
      absurd (ground (arith, there, new))
]

registered-lasts :
    (pwd : PwdContext) (req : RegisterRequest) (env : Surroundings) (keys : Keys) (tables : Tables)
    (email : String) (a : Account)
    → env.refreshes ≡ true
    → find_email email tables.users ≡ some a
    → find_email email (register_user pwd req env keys tables).tables.users ≡ some a
registered-lasts pwd req env keys tables email a h found =
    let w : Wrote env.now keys (register_user pwd req env keys tables).keys tables.users
        (register_user pwd req env keys tables).tables.users =
      Ends-Wrote pwd req env keys tables (register_user-Ends pwd req env keys tables) h in
    elim w.rows [
      | inl e ↦ subst (λ us. find_email email us ≡ some a) (sym e) found
      | inr (u, e, made, free, claim, new) ↦
          subst (λ us. find_email email us ≡ some a) (sym e)
            (find_email-behind email u a tables.users found new)
    ]

Step-lasts :
    (email : String) (a : Account) {c d : Cluster}
    → Step c d
    → find_email email c.east.users ≡ some a
    → find_email email d.east.users ≡ some a
Step-lasts email a {c} (register_east pwd req env l h) found =
    registered-lasts pwd req env c.keys c.east email a h found
Step-lasts email a {c} (register_west pwd req env l h) found = found
Step-lasts email a {c} (replicate_east answers event) found =
    subst (λ us. find_email email us ≡ some a) (sym (users_kept answers event c.east)) found
Step-lasts email a {c} (replicate_west answers event) found = found

Reach-lasts :
    (email : String) (a : Account) {start c : Cluster}
    → Reach start c
    → find_email email start.east.users ≡ some a
    → find_email email c.east.users ≡ some a
Reach-lasts email a here found = found
Reach-lasts email a (next r st) found = Step-lasts email a st (Reach-lasts email a r found)

known_of_found :
    (email : String) (a : Account) (tables : Tables)
    → find_email email tables.users ≡ some a
    → known_email email tables ≡ some a
unfolding known_email first_of
known_of_found email a tables found = rw found refl

-- Once a registration has returned the account, and whatever the node and its peer register and
-- replicate behind it, as long as no refresh fails behind a commit: a login at the node with the same
-- email and password answers with a token of the account.
pub account_lasts :
    (jwt : Jwt) (minutes : ℕ) (pwd : PwdContext) (req : RegisterRequest) (env : Surroundings)
    (keys : Keys) (tables : Tables) (user : Account) (start c : Cluster) (t : ℕ)
    → (register_user pwd req env keys tables).result ≡ registered user
    → start.east ≡ (register_user pwd req env keys tables).tables
    → Reach start c
    → login jwt minutes pwd t req.email req.password c.east ≡ welcome jwt minutes t user
account_lasts jwt minutes pwd req env keys tables user start c t h same r =
    let done : Completes pwd req env keys tables (register_user pwd req env keys tables) user =
      registered-Completes pwd req env keys tables user h in
    let mail : user.email ≡ req.email = ap (λ a. a.email) done.account in
    let rows : start.east.users ≡ user ∷ tables.users =
      ap (λ (x : Tables). x.users) same ∙ ap (λ r'. r'.tables.users) done.left in
    let found : find_email req.email start.east.users ≡ some user =
      subst (λ us. find_email req.email us ≡ some user) (sym rows)
        (find_email-first req.email user tables.users mail) in
    login-known jwt minutes pwd t req.email req.password env.salt c.east user
      (known_of_found req.email user c.east (Reach-lasts req.email user r found)) done.hashed
