-- ===== src/AuthService/Claiming.antt =====
-- The keys that claim emails.
use distributed_traffic_serv.Base.{
  ℕ, ◌<◌, ◌≡◌, refl, ltb, String, false, none, some, ◌==◌, string_eq, lookup, lookup-without,
  eq_iff, Bool-cases, inl, inr, if◌then◌else◌, arith,
}
use distributed_traffic_serv.AuthService.Accounts.{
  Keys, is_alive, is_claimed, release_key, claim_key,
}

pub lookup-release :
    (j k : String) (keys : Keys)
    → lookup j (release_key k keys) ≡ (if k == j then none else lookup j keys)
unfolding release_key
lookup-release j k keys = lookup-without j k keys

pub lookup-claim :
    (j k : String) (e : ℕ) (keys : Keys)
    → lookup j (claim_key k e keys) ≡ (if k == j then some e else lookup j keys)
unfolding lookup claim_key
lookup-claim j k e keys = ground (arith, eq_iff k j, lookup-release j k keys)

-- What a call leaves of the claims that stand at its time.
abbrev pub Keeps : ℕ → Keys → Keys → Type 0
Keeps now keys keys' =
    (key : String) (expires_at : ℕ)
    → lookup key keys ≡ some expires_at
    → now < expires_at
    → lookup key keys' ≡ some expires_at

pub is_claimed_iff :
    (key : String) (now e : ℕ) (keys : Keys)
    → lookup key keys ≡ some e
    → is_claimed key now keys ≡ ltb now e
unfolding is_claimed is_alive
is_claimed_iff key now e keys h = rw h refl

-- A key that is free is another than a key that is claimed.
pub free-ne :
    (k j : String) (now e : ℕ) (keys : Keys)
    → is_claimed k now keys ≡ false
    → lookup j keys ≡ some e
    → now < e
    → (k == j) ≡ false
free-ne k j now e keys free h l = elim (Bool-cases (k == j)) [
  | inr other ↦ other
  | inl same ↦
      let equal : k ≡ j = (eq_iff k j).0 same in
      let found : lookup k keys ≡ some e = rw equal h in
      absurd (ground (arith, is_claimed_iff k now e keys found, free, l))
]

module _ (k : String) (now e : ℕ) (keys : Keys) (free : is_claimed k now keys ≡ false) where
  pub claim_key-Keeps : Keeps now keys (claim_key k e keys)
  claim_key-Keeps j x h l =
      let other : (k == j) ≡ false = free-ne k j now x keys free h l in
      rw (lookup-claim j k e keys) (rw other h)

  pub release-claim_key-Keeps : Keeps now keys (release_key k (claim_key k e keys))
  release-claim_key-Keeps j x h l =
      let other : (k == j) ≡ false = free-ne k j now x keys free h l in
      rw (lookup-release j k (claim_key k e keys)) (rw other (claim_key-Keeps j x h l))
