-- ===== src/AuthService/Registering.antt =====
-- How a registration ends.
use distributed_traffic_serv.Base.{
  ◌+◌, ◌≡◌, ◌⊎◌, refl, String, true, false, Option, none, some, [], ◌∷◌, is_some, if◌then◌else◌,
  if-rule, if_not-rule, inl, inr,
}
use distributed_traffic_serv.AuthService.Password.{PwdContext, hashed_part}
use distributed_traffic_serv.AuthService.Accounts.{
  Account, Tables, find_email, Keys, day, email_key, is_claimed, claim_key,
}
use distributed_traffic_serv.AuthService.Register.{
  RegisterRequest, user_registered, Surroundings, RegisterError, lock_server_down, database_down,
  password_refused, broker_down, already_registered, registered_elsewhere, registered, Registration,
  stopped, new_account, released, roll_back, accepts, add_user, commit_user, hash_and_commit,
  register_claimed, register_user,
}

abbrev pub completed : Account → Keys → Tables → Registration
completed user keys tables = record {
  keys = keys;
  tables = add_user user tables;
  events = user_registered user ∷ [];
  result = registered user;
}

-- What the exception says of the call.
abbrev pub StopsUnclaimed : RegisterRequest → Surroundings → Keys → RegisterError → Type 0
StopsUnclaimed req env keys e =
    ((env.claims ≡ false) × (e ≡ lock_server_down))
    ⊎ ((is_claimed (email_key req.email) env.now keys ≡ true) × (e ≡ already_registered req.email))

abbrev pub StopsClaimed : PwdContext → RegisterRequest → Surroundings → RegisterError → Type 0
StopsClaimed pwd req env e =
    ((env.reads ≡ false) × (e ≡ database_down))
    ⊎ ((pwd.hash env.salt (hashed_part req.password) ≡ none) × (e ≡ password_refused))
    ⊎ ((env.publishes ≡ false) × (e ≡ broker_down))

module _ (pwd : PwdContext) (req : RegisterRequest) (env : Surroundings) (keys : Keys)
    (tables : Tables) where
  abbrev pub claimed_keys : Keys
  claimed_keys = claim_key (email_key req.email) (env.now + day) keys

  abbrev pub IsFree : Type 0
  IsFree = is_claimed (email_key req.email) env.now keys ≡ false

  -- The ends of a registration: with nothing written; with the email claimed and nothing else
  -- written; with the email free again, since the peer's replica has it, or since the commit failed
  -- and the peer is told; with the row written and yet an exception; or with the row, the claim and
  -- the event.
  pub data Ends : Registration → Type 0 where
    unclaimed : (e : RegisterError) → StopsUnclaimed req env keys e → Ends (stopped keys tables e)
    left_claimed :
        (e : RegisterError)
        → IsFree
        → StopsClaimed pwd req env e
        → Ends (stopped claimed_keys tables e)
    elsewhere :
        IsFree
        → is_some (find_email req.email tables.replicas) ≡ true
        → Ends (
            stopped
              (released env (email_key req.email) claimed_keys)
              tables
              (if env.releases then registered_elsewhere req.email else lock_server_down))
    rolled_back :
        (h : String)
        → IsFree
        → pwd.hash env.salt (hashed_part req.password) ≡ some h
        → accepts env (new_account req env h) tables ≡ false
        → Ends (roll_back env (new_account req env h) claimed_keys tables)
    unrefreshed :
        (h : String)
        → IsFree
        → accepts env (new_account req env h) tables ≡ true
        → env.refreshes ≡ false
        → Ends (
            roll_back env
              (new_account req env h)
              claimed_keys
              (add_user (new_account req env h) tables))
    done :
        (h : String)
        → IsFree
        → is_some (find_email req.email tables.replicas) ≡ false
        → pwd.hash env.salt (hashed_part req.password) ≡ some h
        → accepts env (new_account req env h) tables ≡ true
        → Ends (completed (new_account req env h) claimed_keys tables)

  commit_user-Ends :
      (h : String)
      → IsFree
      → is_some (find_email req.email tables.replicas) ≡ false
      → pwd.hash env.salt (hashed_part req.password) ≡ some h
      → Ends (commit_user env (new_account req env h) claimed_keys tables)
  unfolding commit_user
  commit_user-Ends h free absent hash =
      if_not-rule Ends env.publishes (λ p. left_claimed broker_down free (inr (inr (p, refl))))
        (λ p.
          if_not-rule Ends (accepts env (new_account req env h) tables)
            (λ a. rolled_back h free hash a)
            (λ a.
              if_not-rule Ends env.refreshes (λ r. unrefreshed h free a r)
                (λ r. done h free absent hash a)))

  hash_and_commit-Ends :
      (o : Option String)
      → IsFree
      → is_some (find_email req.email tables.replicas) ≡ false
      → pwd.hash env.salt (hashed_part req.password) ≡ o
      → Ends (hash_and_commit req env o claimed_keys tables)
  unfolding hash_and_commit
  hash_and_commit-Ends none free absent e = left_claimed password_refused free (inr (inl (e, refl)))
  hash_and_commit-Ends (some h) free absent e = commit_user-Ends h free absent e

  register_claimed-Ends : IsFree → Ends (register_claimed pwd req env claimed_keys tables)
  unfolding register_claimed
  register_claimed-Ends free =
      if_not-rule Ends env.reads (λ r. left_claimed database_down free (inl (r, refl)))
        (λ r.
          if-rule Ends (is_some (find_email req.email tables.replicas))
            (λ there. elsewhere free there)
            (λ absent.
              hash_and_commit-Ends (pwd.hash env.salt (hashed_part req.password)) free absent refl))

  -- Every registration ends in one of the six ways.
  pub register_user-Ends : Ends (register_user pwd req env keys tables)
  unfolding register_user
  register_user-Ends =
      if_not-rule Ends env.claims (λ c. unclaimed lock_server_down (inl (c, refl)))
        (λ c.
          if-rule Ends (is_claimed (email_key req.email) env.now keys)
            (λ taken. unclaimed (already_registered req.email) (inr (taken, refl)))
            register_claimed-Ends)
