-- ===== src/Gateway/Window.antt =====
-- How many requests of an address pass.
use package.text.Mathlib.TextLemmas.{append_cancel_left}
use Prim.Native.Nat.{min}
use distributed_traffic_serv.Base.{
  ℕ, suc, ◌+◌, ◌-◌, ◌≤◌, ◌<◌, ◌≡◌, refl, ◌∙◌, ltb, String, Bool, true, false, not, Option, none,
  some, List, [], ◌∷◌, ◌==◌, string_eq, nat_eq, eq_iff, eq_refl, count, lookup, lookup-without, All,
  All-imp, if◌then◌else◌, Bool-cases, inl, inr, arith,
}
use distributed_traffic_serv.Gateway.RateLimiter.{
  rate_limit, window, Counter, Counters, Request, key_of, is_past, incremented, expiring,
  put_counter, rate_limit_middleware, passes,
}

-- The requests of one address.
abbrev pub comes_from : String → Request → Bool
comes_from ip req = req.client_ip == ip

other_key : (a b : String) → (a == b) ≡ false → (key_of a == key_of b) ≡ false
other_key a b other = elim (Bool-cases (key_of a == key_of b)) [
  | inr h ↦ h
  | inl same ↦
      let equal : a ≡ b =
        append_cancel_left "rate_limit:" a b ((eq_iff (key_of a) (key_of b)).0 same) in
      let again = (eq_iff a b).1 equal in cc
]

lookup-put :
    (j k : String) (c : Counter) (counters : Counters)
    → lookup j (put_counter k c counters) ≡ (if k == j then some c else lookup j counters)
unfolding lookup
lookup-put j k c counters = ground (arith, eq_iff k j, lookup-without j k counters)

-- A request of another address leaves the counter as it is.
other_ip :
    (ip : String) (req : Request) (counters : Counters)
    → (key_of req.client_ip == key_of ip) ≡ false
    → lookup (key_of ip) (rate_limit_middleware req counters).1 ≡ lookup (key_of ip) counters
unfolding rate_limit_middleware
other_ip ip req counters other = elim (Bool-cases req.increments) [
  | inr down ↦ rw (down, rate_limit_middleware) refl
  | inl up ↦
      rw (up, rate_limit_middleware)
        (rw
          (lookup-put (key_of ip) (key_of req.client_ip)
            (expiring req (incremented req.now (lookup (key_of req.client_ip) counters))) counters)
          (rw other refl))
]

-- A request at a counter that goes on counts one up.
same_ip :
    (ip : String) (req : Request) (counters : Counters) (c : Counter)
    → req.client_ip ≡ ip
    → req.increments ≡ true
    → lookup (key_of ip) counters ≡ some c
    → is_past req.now c.expires_at ≡ false
    → 1 ≤ c.current
    → ((rate_limit_middleware req counters).0 ≡ not (ltb rate_limit (suc c.current)))
      × (lookup (key_of ip) (rate_limit_middleware req counters).1
          ≡ some (record c { current = suc c.current }))
unfolding rate_limit_middleware expiring
same_ip ip req counters c from up found going h =
    let next : incremented req.now (lookup (key_of ip) counters)
        ≡ record c { current = suc c.current } =
      rw found (unfold incremented in rw going refl) in
    let more : (suc c.current == 1) ≡ false = ground arith in
    rw (up, rate_limit_middleware)
      (rw from (rw next (refl, rw (eq_refl (key_of ip)) (rw more refl))))

-- A request that begins a counter.
first_of_ip :
    (ip : String) (req : Request) (counters : Counters)
    → req.client_ip ≡ ip
    → req.increments ≡ true
    → lookup (key_of ip) counters ≡ none
    → ((rate_limit_middleware req counters).0 ≡ true)
      × (lookup (key_of ip) (rate_limit_middleware req counters).1
          ≡ some (record {
            current = 1;
            expires_at = if req.expires then some (req.now + window) else none;
          }))
unfolding rate_limit_middleware expiring incremented
first_of_ip ip req counters from up none_ =
    rw (up, rate_limit_middleware)
      (rw from (rw none_ (refl, rw (eq_refl (key_of ip)) (ground arith))))

-- Requests at which Redis answers and a counter with the given expiry is not past.
abbrev pub GoesOn : Option ℕ → List Request → Type 0
GoesOn expires_at requests =
    All (λ r. (r.increments ≡ true) × (is_past r.now expires_at ≡ false)) requests

passes-going :
    (ip : String) (requests : List Request) (counters : Counters) (c : Counter)
    → lookup (key_of ip) counters ≡ some c
    → 1 ≤ c.current
    → GoesOn c.expires_at requests
    → passes ip requests counters ≡ min (rate_limit - c.current) (count (comes_from ip) requests)
unfolding passes count
passes-going ip [] counters c found h all = omega arith
passes-going ip (req ∷ requests) counters c found h ((up, going), all) =
    elim (Bool-cases (req.client_ip == ip)) [
      | inl same ↦
          let from : req.client_ip ≡ ip = (eq_iff req.client_ip ip).0 same in
          let stepped = same_ip ip req counters c from up found going h in
          let rest =
            passes-going ip requests (rate_limit_middleware req counters).1
              (record c { current = suc c.current }) stepped.1 (omega arith) all in
          rw same (ground (arith, stepped.0, rest))
      | inr other ↦
          let kept = other_ip ip req counters (other_key req.client_ip ip other) in
          let rest =
            passes-going ip requests (rate_limit_middleware req counters).1 c (kept ∙ found) h
              all in
          rw other rest
    ]

begun :
    (ip : String) (first : Request) (requests : List Request) (counters : Counters)
    → first.client_ip ≡ ip
    → first.increments ≡ true
    → lookup (key_of ip) counters ≡ none
    → GoesOn (if first.expires then some (first.now + window) else none) requests
    → passes ip (first ∷ requests) counters ≡ min rate_limit (suc (count (comes_from ip) requests))
unfolding passes
begun ip first requests counters from up none_ going =
    let same : (first.client_ip == ip) ≡ true = (eq_iff first.client_ip ip).1 from in
    let step = first_of_ip ip first counters from up none_ in
    let rest =
      passes-going ip requests (rate_limit_middleware first counters).1 _ step.1 (omega arith)
        going in
    rw same (ground (arith, step.0, rest))

-- Requests of many addresses, at which Redis answers, within a minute of the first of an address that
-- has no counter: of those of the address all pass if they are a hundred at most, and else a hundred.
pub passes_a_window :
    (ip : String) (first : Request) (requests : List Request) (counters : Counters)
    → first.client_ip ≡ ip
    → first.increments ≡ true
    → first.expires ≡ true
    → lookup (key_of ip) counters ≡ none
    → All (λ r. (r.increments ≡ true) × (r.now < first.now + window)) requests
    → passes ip (first ∷ requests) counters ≡ min rate_limit (suc (count (comes_from ip) requests))
unfolding is_past
passes_a_window ip first requests counters from up expires none_ all =
    begun ip first requests counters from up none_ (
      rw expires (
        All-imp
          (λ r (h : (r.increments ≡ true) × (r.now < first.now + window)). (h.0, within r h.1))
          requests all))
  where
    within :
        (r : Request) → r.now < first.now + window → not (ltb r.now (first.now + window)) ≡ false
    within r h = ground arith

-- Where the expiry of an address's new counter is not set, no more than a hundred of its requests
-- pass, whenever they come: all if they are a hundred at most, and else a hundred. Redis counts each.
pub passes_for_ever :
    (ip : String) (first : Request) (requests : List Request) (counters : Counters)
    → first.client_ip ≡ ip
    → first.increments ≡ true
    → first.expires ≡ false
    → lookup (key_of ip) counters ≡ none
    → All (λ r. r.increments ≡ true) requests
    → passes ip (first ∷ requests) counters ≡ min rate_limit (suc (count (comes_from ip) requests))
unfolding is_past
passes_for_ever ip first requests counters from up stays none_ all =
    begun ip first requests counters from up none_
      (rw stays (All-imp (λ r (h : r.increments ≡ true). (h, refl)) requests all))
