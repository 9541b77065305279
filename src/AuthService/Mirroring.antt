-- ===== src/AuthService/Mirroring.antt =====
-- What the events of a registration make of the peer's replica.
use distributed_traffic_serv.Base.{
  ℕ, ◌≤◌, ◌<◌, ◌≡◌, refl, ap, String, true, ◌||◌, none, some, List, [], ◌∷◌, is_some, eq_refl,
  string_eq, filter, if-rule, arith,
}
use mathlib.Core.Path.{subst}
use distributed_traffic_serv.Access.{Jwt}
use distributed_traffic_serv.AuthService.Password.{PwdContext}
use distributed_traffic_serv.AuthService.Accounts.{Account, Tables, find_email, find_id, Keys}
use distributed_traffic_serv.AuthService.Register.{
  RegisterRequest, Surroundings, user_registered, user_registration_failed, RegisterError,
  registered, raised, Registration, new_account, roll_back, register_user,
}
use distributed_traffic_serv.AuthService.Login.{
  first_of, known_email, get_user_by_id, token_of, login, profile,
}
use distributed_traffic_serv.AuthService.Replication.{
  insert_replica, delete_replica, handle_replication_event, handle_all,
}
use distributed_traffic_serv.AuthService.Registering.{
  Ends, unclaimed, left_claimed, elsewhere, rolled_back, unrefreshed, done, register_user-Ends,
}
use distributed_traffic_serv.AuthService.SigningIn.{
  Completes, registered-Completes, session_end, welcome, login-known, profile_shown, profile-fresh,
}

delete_replica-none :
    (id : String) (replicas : List Account)
    → find_id id replicas ≡ none
    → delete_replica id replicas ≡ replicas
unfolding delete_replica find_id filter
delete_replica-none id [] h = refl
delete_replica-none id (a ∷ rest) h = ground (arith, delete_replica-none id rest)

-- What is inserted by an id that is new, and deleted, leaves the replica as it was.
delete-insert_replica :
    (user : Account) (replicas : List Account)
    → find_id user.id replicas ≡ none
    → delete_replica user.id (insert_replica user replicas) ≡ replicas
unfolding insert_replica
delete-insert_replica user replicas h =
    if-rule (λ r. delete_replica user.id r ≡ replicas)
      (is_some (find_id user.id replicas) || is_some (find_email user.email replicas))
      (λ _. delete_replica-none user.id replicas h) (λ _. first)
  where
    first : delete_replica user.id (user ∷ replicas) ≡ replicas
    first =
        unfold delete_replica filter in
        rw (eq_refl user.id) (unfold delete_replica in delete_replica-none user.id replicas h)

insert_replica-new :
    (user : Account) (replicas : List Account)
    → find_id user.id replicas ≡ none
    → find_email user.email replicas ≡ none
    → insert_replica user replicas ≡ user ∷ replicas
unfolding insert_replica
insert_replica-new user replicas h k = rw h (rw k refl)

undone :
    (user : Account) (tables : Tables)
    → find_id user.id tables.replicas ≡ none
    → handle_all (user_registered user ∷ user_registration_failed user.id user.email ∷ []) tables
      ≡ tables
unfolding handle_all handle_replication_event
undone user tables h = rw (delete-insert_replica user tables.replicas h) refl

Ends-undone :
    (pwd : PwdContext) (req : RegisterRequest) (env : Surroundings) (keys : Keys)
    (tables peer : Tables) (e : RegisterError) {r : Registration}
    → Ends pwd req env keys tables r
    → r.result ≡ raised e
    → env.releases ≡ true
    → env.compensates ≡ true
    → find_id env.user_id peer.replicas ≡ none
    → handle_all r.events peer ≡ peer
unfolding handle_all roll_back
Ends-undone pwd req env keys tables peer e (unclaimed x s) h l k new = refl
Ends-undone pwd req env keys tables peer e (left_claimed x f s) h l k new = refl
Ends-undone pwd req env keys tables peer e (elsewhere f s) h l k new = refl
Ends-undone pwd req env keys tables peer e (rolled_back x f s a) h l k new =
    rw l (rw k (undone (new_account req env x) peer new))
Ends-undone pwd req env keys tables peer e (unrefreshed x f a s) h l k new =
    rw l (rw k (undone (new_account req env x) peer new))
Ends-undone pwd req env keys tables peer e (done x f s hash a) h l k new = cc

-- A registration that raises, where the broker takes the compensating event and Redis the release,
-- leaves no trace at a peer that handles its events in their order, its database answering, and whose
-- replica does not have the new id yet.
pub raised-LeavesNoTrace :
    (pwd : PwdContext) (req : RegisterRequest) (env : Surroundings) (keys : Keys)
    (tables peer : Tables) (e : RegisterError)
    → (register_user pwd req env keys tables).result ≡ raised e
    → env.releases ≡ true
    → env.compensates ≡ true
    → find_id env.user_id peer.replicas ≡ none
    → handle_all (register_user pwd req env keys tables).events peer ≡ peer
raised-LeavesNoTrace pwd req env keys tables peer e h l k new =
    Ends-undone pwd req env keys tables peer e (register_user-Ends pwd req env keys tables) h l k
      new

-- The peer does not know the email, nor the id.
pub record IsUnknown (email id : String) (peer : Tables) : Type 0 where
  pub no_user : find_email email peer.users ≡ none
  pub no_user_id : find_id id peer.users ≡ none
  pub no_replica : find_email email peer.replicas ≡ none
  pub no_replica_id : find_id id peer.replicas ≡ none

mirrored :
    (user : Account) (peer : Tables)
    → IsUnknown user.email user.id peer
    → handle_all (user_registered user ∷ []) peer ≡ record peer { replicas = user ∷ peer.replicas }
unfolding handle_all handle_replication_event
mirrored user peer u = rw (insert_replica-new user peer.replicas u.no_replica_id u.no_replica) refl

known_email-mirrored :
    (user : Account) (peer : Tables)
    → IsUnknown user.email user.id peer
    → known_email user.email (record peer { replicas = user ∷ peer.replicas }) ≡ some user
unfolding known_email find_email first_of
known_email-mirrored user peer u = rw (u.no_user, find_email) (rw (eq_refl user.email) refl)

get_user_by_id-mirrored :
    (user : Account) (peer : Tables)
    → IsUnknown user.email user.id peer
    → get_user_by_id user.id (record peer { replicas = user ∷ peer.replicas }) ≡ some user
unfolding get_user_by_id find_id first_of
get_user_by_id-mirrored user peer u = rw (u.no_user_id, find_id) (rw (eq_refl user.id) refl)

-- Once a peer that knows neither the email nor the id has handled the events of a registration that
-- returned the account, its database answering, a login at the peer answers with a token of the account, and until it
-- expires the profile behind it, at the peer too, is that of the account.
pub registered-signs_in_at_peer :
    (jwt : Jwt) (minutes : ℕ) (pwd : PwdContext) (req : RegisterRequest) (env : Surroundings)
    (keys : Keys) (tables peer : Tables) (user : Account) (t at : ℕ)
    → (register_user pwd req env keys tables).result ≡ registered user
    → IsUnknown user.email user.id peer
    → t ≤ at
    → at < session_end minutes t
    → (login jwt minutes pwd t req.email req.password
          (handle_all (register_user pwd req env keys tables).events peer)
        ≡ welcome jwt minutes t user)
      × (profile jwt minutes at
            (token_of jwt minutes t user)
            (handle_all (register_user pwd req env keys tables).events peer)
          ≡ profile_shown user)
registered-signs_in_at_peer jwt minutes pwd req env keys tables peer user t at h unknown l k =
    let c : Completes pwd req env keys tables (register_user pwd req env keys tables) user =
      registered-Completes pwd req env keys tables user h in
    let there : Tables = record peer { replicas = user ∷ peer.replicas } in
    let same : user.email ≡ req.email = ap (λ a. a.email) c.account in
    let known : known_email req.email there ≡ some user =
      subst (λ e. known_email e there ≡ some user) same (known_email-mirrored user peer unknown) in
    rw c.left (
      rw (mirrored user peer unknown) (
        login-known jwt minutes pwd t req.email req.password env.salt there user known c.hashed,
        profile-fresh jwt minutes user t at there (get_user_by_id-mirrored user peer unknown) l k,
      ))
