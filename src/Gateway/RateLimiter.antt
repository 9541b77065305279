-- ===== src/Gateway/RateLimiter.antt =====
-- rate_limiter.py: the counters that Redis keeps of the addresses. Whether Redis answers to `incr`
-- and to `expire` is a part of the request; where it does not, the request passes.
use distributed_traffic_serv.Base.{
  ℕ, suc, ◌+◌, ltb, String, ◌<>◌, Bool, true, false, not, Option, none, some, List, [], ◌∷◌, ◌==◌,
  string_eq, nat_eq, filter, lookup, if◌then◌else◌,
}

-- `RATE_LIMIT`, and `WINDOW_SECONDS` in microseconds.
abbrev pub rate_limit : ℕ
rate_limit = 100

abbrev pub window : ℕ
window = 60000000

-- The value of a key, and when it expires if it does.
pub record Counter : Type 0 where
  pub current : ℕ
  pub expires_at : Option ℕ

abbrev pub Counters : Type 0
Counters = List (String × Counter)

pub record Request : Type 0 where
  pub client_ip : String
  pub now : ℕ
  pub increments : Bool
  pub expires : Bool

abbrev pub key_of : String → String
key_of client_ip = "rate_limit:" <> client_ip

unfoldable pub is_past : ℕ → Option ℕ → Bool
is_past now none = false
is_past now (some expires_at) = not (ltb now expires_at)

-- The counter behind `incr`: a key that is missing or has expired begins anew, and an expiry stays.
unfoldable pub incremented : ℕ → Option Counter → Counter
unfolding is_past
incremented now none = record { current = 1; expires_at = none }
incremented now (some c) =
    if is_past now c.expires_at
    then record { current = 1; expires_at = none }
    else record c { current = suc c.current }

-- The counter behind the `if`.
unfoldable pub expiring : Request → Counter → Counter
expiring req c =
    if c.current == 1
    then if req.expires then record c { expires_at = some (req.now + window) } else c
    else c

abbrev pub put_counter : String → Counter → Counters → Counters
put_counter key c counters = (key, c) ∷ filter (λ e. not (e.0 == key)) counters

-- `rate_limit_middleware`: whether the request passes. At the exception of `expire` it does, and the
-- test is not reached, of a counter that is 1.
unfoldable pub rate_limit_middleware : Request → Counters → Bool × Counters
unfolding incremented expiring filter lookup
rate_limit_middleware req counters =
    let key : String = key_of req.client_ip in
    let c : Counter = incremented req.now (lookup key counters) in
    if not req.increments
    then (true, counters)
    else (not (ltb rate_limit c.current), put_counter key (expiring req c) counters)

-- How many of the requests of an address pass, of requests that come one behind the other.
unfoldable pub passes : String → List Request → Counters → ℕ
unfolding rate_limit_middleware
passes ip [] counters = 0
passes ip (req ∷ requests) counters =
    let rest = passes ip requests (rate_limit_middleware req counters).1 in
    if req.client_ip == ip
    then if (rate_limit_middleware req counters).0 then suc rest else rest
    else rest
