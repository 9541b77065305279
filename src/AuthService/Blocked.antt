-- ===== src/AuthService/Blocked.antt =====
-- What an exception between the claim and the commit leaves behind.
use distributed_traffic_serv.Base.{
  ◌+◌, ◌<◌, ◌≡◌, refl, ap, ◌∙◌, String, true, some, lookup, to_lower, eq_refl, string_eq, inl, inr,
  arith,
}
use distributed_traffic_serv.AuthService.Password.{PwdContext}
use distributed_traffic_serv.AuthService.Accounts.{Tables, Keys, day, email_key, is_claimed}
use distributed_traffic_serv.AuthService.Register.{
  RegisterRequest, Surroundings, broker_down, already_registered, raised, Registration, stopped,
  roll_back, register_user,
}
use distributed_traffic_serv.AuthService.Claiming.{lookup-claim, is_claimed_iff}
use distributed_traffic_serv.AuthService.Registering.{
  claimed_keys, Ends, unclaimed, left_claimed, elsewhere, rolled_back, unrefreshed, done,
  register_user-Ends,
}

Ends-broker_down :
    (pwd : PwdContext) (req : RegisterRequest) (env : Surroundings) (keys : Keys) (tables : Tables)
    {r : Registration}
    → Ends pwd req env keys tables r
    → r.result ≡ raised broker_down
    → r ≡ stopped (claimed_keys pwd req env keys tables) tables broker_down
unfolding roll_back
Ends-broker_down pwd req env keys tables (unclaimed e (inl (c, s))) h = cc
Ends-broker_down pwd req env keys tables (unclaimed e (inr (c, s))) h = cc
Ends-broker_down pwd req env keys tables (left_claimed e f s) h =
    let same : e ≡ broker_down = cc in
    ap (stopped (claimed_keys pwd req env keys tables) tables) same
Ends-broker_down pwd req env keys tables (elsewhere f s) h = ground (arith, h)
Ends-broker_down pwd req env keys tables (rolled_back x f s a) h = ground (arith, h)
Ends-broker_down pwd req env keys tables (unrefreshed x f a s) h = ground (arith, h)
Ends-broker_down pwd req env keys tables (done x f s hash a) h = cc

register_user-claimed :
    (pwd : PwdContext) (req : RegisterRequest) (env : Surroundings) (keys : Keys) (tables : Tables)
    → env.claims ≡ true
    → is_claimed (email_key req.email) env.now keys ≡ true
    → register_user pwd req env keys tables ≡ stopped keys tables (already_registered req.email)
unfolding register_user
register_user-claimed pwd req env keys tables c taken = rw (c, register_user) (rw taken refl)

-- A registration that the broker of the replication takes no event of writes no account, and yet
-- blocks its email: for a day, every registration of it at which Redis answers, in whatever case and
-- on whichever tables, is refused as already registered and writes nothing.
pub broker_down-blocks :
    (pwd pwd' : PwdContext) (req req' : RegisterRequest) (env env' : Surroundings) (keys : Keys)
    (tables tables' : Tables)
    → (register_user pwd req env keys tables).result ≡ raised broker_down
    → to_lower req'.email ≡ to_lower req.email
    → env'.claims ≡ true
    → env'.now < env.now + day
    → ((register_user pwd req env keys tables).tables ≡ tables)
      × (register_user pwd' req' env' (register_user pwd req env keys tables).keys tables'
          ≡ stopped
              (register_user pwd req env keys tables).keys
              tables'
              (already_registered req'.email))
unfolding email_key
broker_down-blocks pwd pwd' req req' env env' keys tables tables' h same answers soon =
    let left : register_user pwd req env keys tables
        ≡ stopped (claimed_keys pwd req env keys tables) tables broker_down =
      Ends-broker_down pwd req env keys tables (register_user-Ends pwd req env keys tables) h in
    let key : String = email_key req'.email in
    let there : lookup key (claimed_keys pwd req env keys tables) ≡ some (env.now + day) = rw same (
      rw (lookup-claim (email_key req.email) (email_key req.email) (env.now + day) keys)
        (rw (eq_refl (email_key req.email)) refl)) in
    let taken : is_claimed key env'.now (claimed_keys pwd req env keys tables) ≡ true =
      is_claimed_iff key env'.now (env.now + day) (claimed_keys pwd req env keys tables) there
      ∙ ground arith in
    rw left (
      refl,
      register_user-claimed pwd' req' env' (claimed_keys pwd req env keys tables) tables' answers
          taken,
    )
