-- ===== src/AuthService/Cut.antt =====
-- What of a password counts.
use Prim.Native.Char.{Char}
use Prim.Native.String.{[], ◌∷◌}
use package.text.Mathlib.TextLemmas.{nil-append, cons-append}
use distributed_traffic_serv.Base.{
  ℕ, ◌+◌, ◌-◌, ◌≤◌, ◌<◌, ◌≡◌, refl, ap, sym, ◌∙◌, leb, String, ◌<>◌, inl, inr, Bool-cases, arith,
}
use distributed_traffic_serv.AuthService.Password.{width, utf8_length, first_bytes, hashed_part}

-- A cut of a text to `n` bytes: all of it, or its front up to a character that does not fit.
pub data IsCut (n : ℕ) (whole part : String) : Type 0 where
  all : part ≡ whole → utf8_length whole ≤ n → IsCut n whole part
  front :
      (c : Char) (rest : String)
      → whole ≡ part <> (c ∷ rest)
      → utf8_length part ≤ n
      → n < utf8_length part + width c
      → IsCut n whole part

IsCut-cons :
    (n : ℕ) (c : Char) (whole part : String)
    → width c ≤ n
    → IsCut (n - width c) whole part
    → IsCut n (c ∷ whole) (c ∷ part)
unfolding utf8_length
IsCut-cons n c whole part h (all e l) = all (rw e refl) (omega arith)
IsCut-cons n c whole part h (front d rest e l k) =
    front d rest (ap (λ t. c ∷ t) e ∙ sym (cons-append c part (d ∷ rest))) (omega arith)
      (omega arith)

pub first_bytes-IsCut : (n : ℕ) (text : String) → IsCut n text (first_bytes n text)
unfolding first_bytes utf8_length
first_bytes-IsCut n [] = all refl (omega arith)
first_bytes-IsCut n (c ∷ text) = elim (Bool-cases (leb (width c) n)) [
  | inl fits ↦ rw fits (
      IsCut-cons n c text (first_bytes (n - width c) text) (ground (arith, fits))
        (first_bytes-IsCut (n - width c) text))
  | inr wide ↦
      rw wide (front c text (sym (nil-append (c ∷ text))) (omega arith) (ground (arith, wide)))
]

-- What of a password is hashed and compared is the whole password, if it has at most 72 bytes, or
-- else its longest front of whole characters that has at most 72.
pub hashed_part-IsCut : (password : String) → IsCut 72 password (hashed_part password)
unfolding hashed_part
hashed_part-IsCut password = first_bytes-IsCut 72 password
