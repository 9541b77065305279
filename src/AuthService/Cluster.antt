-- ===== src/AuthService/Cluster.antt =====
-- Two nodes that share the keys of Redis, and what happens at them. Redis evicts no key
-- before it expires.
use distributed_traffic_serv.Base.{
  is_some, arith, ℕ, ◌+◌, ◌≤◌, ◌≡◌, ◌⊎◌, refl, String, Bool, true, false, some, List, ◌∷◌, lookup,
  if-rule, eq_refl, string_eq, inl, inr,
}
use distributed_traffic_serv.AuthService.Password.{PwdContext}
use distributed_traffic_serv.AuthService.Accounts.{
  Account, Tables, find_email, Keys, day, email_key, is_claimed, claim_key,
}
use distributed_traffic_serv.AuthService.Register.{
  RegisterRequest, ReplicationEvent, user_registered, user_registration_failed, Surroundings,
  Registration, new_account, released, roll_back, accepts, register_user,
}
use distributed_traffic_serv.AuthService.Replication.{handle_replication_event}
use distributed_traffic_serv.AuthService.Claiming.{
  lookup-claim, Keeps, claim_key-Keeps, release-claim_key-Keeps,
}
use distributed_traffic_serv.AuthService.Registering.{
  IsFree, claimed_keys, Ends, unclaimed, left_claimed, elsewhere, rolled_back, unrefreshed, done,
}

pub record Cluster : Type 0 where
  pub keys : Keys
  pub east : Tables
  pub west : Tables
  pub clock : ℕ

-- A registration at either node, behind which the row is refreshed; and an event that either node
-- handles or fails to.
pub data Step (c : Cluster) : Cluster → Type 0 where
  register_east :
      (pwd : PwdContext) (req : RegisterRequest) (env : Surroundings)
      → c.clock ≤ env.now
      → env.refreshes ≡ true
      → Step c (record c {
        keys = (register_user pwd req env c.keys c.east).keys;
        east = (register_user pwd req env c.keys c.east).tables;
        clock = env.now;
      })
  register_west :
      (pwd : PwdContext) (req : RegisterRequest) (env : Surroundings)
      → c.clock ≤ env.now
      → env.refreshes ≡ true
      → Step c (record c {
        keys = (register_user pwd req env c.keys c.west).keys;
        west = (register_user pwd req env c.keys c.west).tables;
        clock = env.now;
      })
  replicate_east :
      (answers : Bool) (event : ReplicationEvent)
      → Step c (record c { east = handle_replication_event answers event c.east })
  replicate_west :
      (answers : Bool) (event : ReplicationEvent)
      → Step c (record c { west = handle_replication_event answers event c.west })

pub data Reach (start : Cluster) : Cluster → Type 0 where
  here : Reach start start
  next : {c d : Cluster} → Reach start c → Step c d → Reach start d

pub users_kept :
    (answers : Bool) (event : ReplicationEvent) (tables : Tables)
    → (handle_replication_event answers event tables).users ≡ tables.users
unfolding handle_replication_event
users_kept false event tables = refl
users_kept true (user_registered a) tables = refl
users_kept true (user_registration_failed id email) tables = refl

-- What a call makes of the keys and of the users.
pub record Wrote (now : ℕ) (keys keys' : Keys) (users users' : List Account) : Type 0 where
  pub keeps : Keeps now keys keys'
  pub rows :
      (users' ≡ users)
      ⊎ ((u : Account) × (users' ≡ u ∷ users)
          × (u.created_at ≡ now)
          × (is_claimed (email_key u.email) now keys ≡ false)
          × (lookup (email_key u.email) keys' ≡ some (now + day))
          × (is_some (find_email u.email users) ≡ false))

released-Keeps :
    (pwd : PwdContext) (req : RegisterRequest) (env : Surroundings) (keys : Keys) (tables : Tables)
    → IsFree pwd req env keys tables
    → Keeps env.now keys (released env (email_key req.email) (claimed_keys pwd req env keys tables))
released-Keeps pwd req env keys tables free =
    if-rule (Keeps env.now keys) env.releases
      (λ _. release-claim_key-Keeps (email_key req.email) env.now (env.now + day) keys free)
      (λ _. claim_key-Keeps (email_key req.email) env.now (env.now + day) keys free)

accepts-new :
    (env : Surroundings) (user : Account) (tables : Tables)
    → accepts env user tables ≡ true
    → is_some (find_email user.email tables.users) ≡ false
unfolding accepts
accepts-new env user tables h = ground (arith, h)

pub Ends-Wrote :
    (pwd : PwdContext) (req : RegisterRequest) (env : Surroundings) (keys : Keys) (tables : Tables)
    {r : Registration}
    → Ends pwd req env keys tables r
    → env.refreshes ≡ true
    → Wrote env.now keys r.keys tables.users r.tables.users
unfolding roll_back
Ends-Wrote pwd req env keys tables (unclaimed e s) h = record {
  keeps = λ k e l m. l;
  rows = inl refl;
}
Ends-Wrote pwd req env keys tables (left_claimed e f s) h = record {
  keeps = claim_key-Keeps (email_key req.email) env.now (env.now + day) keys f;
  rows = inl refl;
}
Ends-Wrote pwd req env keys tables (elsewhere f s) h = record {
  keeps = released-Keeps pwd req env keys tables f;
  rows = inl refl;
}
Ends-Wrote pwd req env keys tables (rolled_back x f s a) h = record {
  keeps = released-Keeps pwd req env keys tables f;
  rows = inl refl;
}
Ends-Wrote pwd req env keys tables (unrefreshed x f a s) h = cc
Ends-Wrote pwd req env keys tables (done x f s hash a) h =
    let key : String = email_key req.email in
    let found : lookup key (claim_key key (env.now + day) keys) ≡ some (env.now + day) =
      rw (lookup-claim key key (env.now + day) keys) (rw (eq_refl key) refl) in
    record {
      keeps = claim_key-Keeps key env.now (env.now + day) keys f;
      rows = inr (
        new_account req env x,
        refl,
        refl,
        f,
        found,
        accepts-new env (new_account req env x) tables a,
      );
    }
