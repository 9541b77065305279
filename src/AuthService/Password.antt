-- ===== src/AuthService/Password.antt =====
-- service.py: what of a password is hashed. `pwd_context` (passlib, with bcrypt) is a parameter.
use Prim.Native.Char.{Char, code}
use Prim.Native.String.{[], ◌∷◌}
use distributed_traffic_serv.Base.{
  ℕ, ◌+◌, ◌-◌, ◌≡◌, ltb, leb, String, Bool, true, Option, some, if◌then◌else◌,
}

-- The bytes of a character in UTF-8.
unfoldable pub width : Char → ℕ
width c =
    if ltb (code c) 128
    then 1
    else if ltb (code c) 2048
    then 2
    else if ltb (code c) 65536
    then 3
    else 4

-- `len(text.encode("utf-8"))`.
unfoldable pub utf8_length : String → ℕ
unfolding width
utf8_length [] = 0
utf8_length (c ∷ text) = width c + utf8_length text

-- `text.encode("utf-8")[:n].decode("utf-8", errors="ignore")`: a character that the cut leaves
-- incomplete is dropped.
unfoldable pub first_bytes : ℕ → String → String
unfolding width
first_bytes n [] = []
first_bytes n (c ∷ text) =
    let rest = first_bytes (n - width c) text in if leb (width c) n then c ∷ rest else []

-- What is hashed, and what is compared.
unfoldable pub hashed_part : String → String
unfolding first_bytes
hashed_part password = first_bytes 72 password

-- `pwd_context`. A hash takes a salt from outside; `none` is an exception, such as at a password with
-- a NUL. A password that was hashed verifies; `verify` is that of a password with no NUL.
pub record PwdContext : Type 0 where
  pub hash : (salt password : String) → Option String
  pub verify : (password password_hash : String) → Bool
  pub verify-hash :
      (salt password password_hash : String)
      → hash salt password ≡ some password_hash
      → verify password password_hash ≡ true
