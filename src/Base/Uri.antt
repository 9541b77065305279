-- ===== src/Base/Uri.antt =====
-- `encodeURIComponent`: each character that is not unreserved becomes the bytes of its UTF-8,
-- each written as `%` and two hexadecimal digits.
use Prim.Native.Char.{Char, code}
use Prim.Native.String.{char_at, [], ◌∷◌}
use distributed_traffic_serv.Base.{
  ℕ, ◌+◌, ◌/◌, ◌%◌, ◌≡◌, refl, String, Bool, ◌&&◌, ◌||◌, leb, ltb, eqb, if◌then◌else◌,
}

abbrev is_between : ℕ → ℕ → ℕ → Bool
is_between lo hi n = leb lo n && leb n hi

-- `A-Z a-z 0-9 - _ . ! ~ * ' ( )`, by their numbers.
unfoldable pub is_unreserved : ℕ → Bool
is_unreserved n =
    is_between b'A' b'Z' n
    || is_between b'a' b'z' n
    || is_between b'0' b'9' n
    || is_between 39 42 n
    || eqb n 33
    || eqb n 45
    || eqb n 46
    || eqb n 95
    || eqb n 126

unfoldable pub hex : ℕ → Char
hex d = char_at "0123456789ABCDEF" d

-- One byte, in front of the text `rest`.
unfoldable pub escape : ℕ → String → String
unfolding hex
escape byte rest = char_at "%" 0 ∷ hex (byte / 16) ∷ hex (byte % 16) ∷ rest

-- The bytes of a character's UTF-8, escaped in front of `rest`.
unfoldable pub escape_char : ℕ → String → String
unfolding escape
escape_char n rest =
    if ltb n 0x80
    then escape n rest
    else if ltb n 0x800
    then escape (0xC0 + n / 64) (escape (0x80 + n % 64) rest)
    else if ltb n 0x10000
    then escape (0xE0 + n / 4096) (escape (0x80 + (n / 64) % 64) (escape (0x80 + n % 64) rest))
    else escape (0xF0 + n / 262144) (
        escape (0x80 + (n / 4096) % 64)
          (escape (0x80 + (n / 64) % 64) (escape (0x80 + n % 64) rest)))

unfoldable pub encode_uri_component : String → String
unfolding escape_char is_unreserved
encode_uri_component [] = []
encode_uri_component (c ∷ s) =
    let rest = encode_uri_component s in
    if is_unreserved (code c) then c ∷ rest else escape_char (code c) rest

encode_test : encode_uri_component "é/A B" ≡ "%C3%A9%2FA%20B"
unfolding encode_uri_component
encode_test = refl
