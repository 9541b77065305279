-- ===== src/Access.antt =====
-- shared/auth.py: the tokens that the services give and read, and who may call what. The package `jwt`
-- is a parameter with the behaviour that it documents; its secret and algorithm are a part of it.
use distributed_traffic_serv.Base.{
  ℕ, ◌+◌, ◌*◌, ◌/◌, ◌≤◌, ◌<◌, ◌≡◌, String, not, ◌||◌, ◌==◌, string_eq, if◌then◌else◌,
}

-- What a call of a service comes to: a result, or an HTTPException.
pub data Outcome {ℓ} (A : Type ℓ) : Type ℓ where
  success : A → Outcome A
  refusal : (status : ℕ) (detail : String) → Outcome A

infixl 5 ◌>>=◌
abbrev pub ◌>>=◌ {ℓ κ} : {A : Type ℓ} {B : Type κ} → Outcome A → (A → Outcome B) → Outcome B
success a >>= f = f a
refusal status detail >>= f = refusal status detail

-- The payload of a token. Its times are whole seconds, as `jwt` writes them.
pub record Claims : Type 0 where
  pub sub : String
  pub role : String
  pub email : String
  pub iat : ℕ
  pub exp : ℕ

-- What `jwt.decode` comes to, ExpiredSignatureError and InvalidTokenError included.
pub data Decoded : Type 0 where
  valid : Claims → Decoded
  expired invalid : Decoded

abbrev pub microseconds : ℕ
microseconds = 1000000

-- The package: a token that it wrote is read until it expires, and is refused as expired from then on.
pub record Jwt : Type 1 where
  pub Token : Type 0
  pub encode : Claims → Token
  pub decode : ℕ → Token → Decoded
  pub decode-encode :
      (c : Claims) (now : ℕ)
      → c.iat * microseconds ≤ now
      → now < c.exp * microseconds
      → decode now (encode c) ≡ valid c
  pub decode_late :
      (c : Claims) (now : ℕ) → c.exp * microseconds ≤ now → decode now (encode c) ≡ expired

-- What `create_access_token` encodes at the time `now`, with the email as `extra`.
unfoldable pub claims_of : (expiry_minutes now : ℕ) (sub role email : String) → Claims
claims_of expiry_minutes now sub role email = record {
  sub = sub;
  role = role;
  email = email;
  iat = now / microseconds;
  exp = (now + expiry_minutes * 60 * microseconds) / microseconds;
}

-- `verify_token` behind the decoding.
unfoldable pub verified : Decoded → Outcome Claims
verified (valid c) = success c
verified expired = refusal 401 "Token expired"
verified invalid = refusal 401 "Invalid token"

module _ (jwt : Jwt) where
  open jwt use {Token, encode, decode}

  -- `create_access_token`.
  unfoldable pub create_access_token : (expiry_minutes now : ℕ) (sub role email : String) → Token
  unfolding claims_of
  create_access_token expiry_minutes now sub role email =
      encode (claims_of expiry_minutes now sub role email)

  -- `verify_token`, and so `get_current_user`, at the time `now`.
  unfoldable pub verify_token : ℕ → Token → Outcome Claims
  unfolding verified
  verify_token now token = verified (decode now token)

-- `require_admin` behind the token.
unfoldable pub require_admin : Claims → Outcome Claims
require_admin user =
    if not (user.role == "admin") then refusal 403 "Admin required" else success user

-- `_require_enforcement` of verification_service/routes.py.
unfoldable pub require_enforcement : Claims → Outcome Claims
require_enforcement user =
    if user.role == "enforcement_agent" || user.role == "admin"
    then success user
    else refusal 403 "Only enforcement agents and admins can verify plate numbers."
