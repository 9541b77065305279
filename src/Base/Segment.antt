-- ===== src/Base/Segment.antt =====
-- What `encodeURIComponent` leaves of a text: nothing that ends a segment of a path.
use Prim.Native.Char.{Char, char, code}
use Prim.Native.String.{[], ◌∷◌}
use distributed_traffic_serv.Base.{
  ℕ, ◌+◌, ◌/◌, ◌%◌, ◌<◌, ◌≡◌, refl, String, Bool, true, not, ◌&&◌, eqb, ltb, holds_below,
  holds_below-lt, arith, Bool-cases, inl, inr,
}
use distributed_traffic_serv.Base.Uri.{
  encode_uri_component, is_unreserved, hex, escape, escape_char,
}

-- Neither `/` nor `?` nor `#`.
abbrev pub stays : ℕ → Bool
stays n = not (eqb n b'/') && not (eqb n b'?') && not (eqb n b'#')

-- A text that is within one segment of a path.
abbrev pub IsSegment : String → Type 0
IsSegment [] = Unit
IsSegment (c ∷ s) = (stays (code c) ≡ true) × IsSegment s

hex_table : holds_below (λ d. stays (code (hex d))) 16 ≡ true
unfolding holds_below hex
hex_table = refl

hex-stays : (d : ℕ) → d < 16 → stays (code (hex d)) ≡ true
hex-stays d lt = holds_below-lt (λ d. stays (code (hex d))) 16 d lt hex_table

escape-IsSegment :
    (byte : ℕ) (rest : String) → byte < 256 → IsSegment rest → IsSegment (escape byte rest)
unfolding escape
escape-IsSegment byte rest lt h =
    (refl, (hex-stays (byte / 16) (omega arith), (hex-stays (byte % 16) (omega arith), h)))

escape_char-IsSegment :
    (n : ℕ) (rest : String) → n < 0x110000 → IsSegment rest → IsSegment (escape_char n rest)
unfolding escape_char
escape_char-IsSegment n rest lt h =
    let last : String = escape (0x80 + n % 64) rest in
    let third : String = escape (0x80 + (n / 64) % 64) last in
    let second : String = escape (0x80 + (n / 4096) % 64) third in
    let p : IsSegment last = escape-IsSegment (0x80 + n % 64) rest (omega arith) h in
    let q : IsSegment third = escape-IsSegment (0x80 + (n / 64) % 64) last (omega arith) p in
    let r : IsSegment second = escape-IsSegment (0x80 + (n / 4096) % 64) third (omega arith) q in
    elim (Bool-cases (ltb n 0x80)) [
      | inl e ↦ rw e (escape-IsSegment n rest (ground arith) h)
      | inr e ↦ rw e (elim (Bool-cases (ltb n 0x800)) [
        | inl e₂ ↦ rw e₂ (escape-IsSegment (0xC0 + n / 64) last (ground arith) p)
        | inr e₂ ↦ rw e₂ (elim (Bool-cases (ltb n 0x10000)) [
          | inl e₃ ↦ rw e₃ (escape-IsSegment (0xE0 + n / 4096) third (ground arith) q)
          | inr e₃ ↦ rw e₃ (escape-IsSegment (0xF0 + n / 262144) second (omega arith) r)
        ])
      ])
    ]

unreserved-stays : (n : ℕ) → is_unreserved n ≡ true → stays n ≡ true
unfolding is_unreserved
unreserved-stays n h = ground arith

code-lt : (c : Char) → code c < 0x110000
code-lt (char n scalar) = ground arith

-- What is encoded stays within one segment.
pub encode-IsSegment : (s : String) → IsSegment (encode_uri_component s)
unfolding encode_uri_component
encode-IsSegment [] = tt
encode-IsSegment (c ∷ s) = elim (Bool-cases (is_unreserved (code c))) [
  | inl e ↦ rw e (unreserved-stays (code c) e, encode-IsSegment s)
  | inr e ↦ rw e (escape_char-IsSegment (code c) _ (code-lt c) (encode-IsSegment s))
]
