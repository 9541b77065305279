-- ===== src/Base/Text.antt =====
-- The text operations that the program takes from JavaScript. Letters are those of ASCII: a letter
-- outside it is left as it is.
use Prim.Native.Nat.{ℕ, zero, suc, ◌-◌, ◌<◌}
use Prim.Native.Char.{Char, code}
use Prim.Native.String.{String, [], ◌∷◌, ◌++◌, char_at}
use mathlib.Core.Path.{◌≡◌, refl}
use mathlib.Core.Bool.{Bool, true, false, not, ◌&&◌, ◌||◌}
use mathlib.Core.Logic.{inl, inr, ◌≢◌}
use mathlib.Core.List.{List}
use native.Mathlib.Omega.{arith}
use text.Mathlib.Text.{starts_with}
use text.Mathlib.TextEquality.{eq_iff}
use distributed_traffic_serv.Base.Tests.{leb, eqb, if◌then◌else◌, Bool-cases}
use distributed_traffic_serv.Base.Equality.{◌==◌, string_eq}

abbrev is_between : ℕ → ℕ → Char → Bool
is_between lo hi c = leb lo (code c) && leb (code c) hi

upper_char : Char → Char
upper_char c =
    if is_between b'a' b'z' c then char_at "ABCDEFGHIJKLMNOPQRSTUVWXYZ" (code c - b'a') else c

lower_char : Char → Char
lower_char c =
    if is_between b'A' b'Z' c then char_at "abcdefghijklmnopqrstuvwxyz" (code c - b'A') else c

-- `s.toUpperCase()`.
unfoldable pub to_upper : String → String
unfolding upper_char
to_upper [] = []
to_upper (c ∷ s) = upper_char c ∷ to_upper s

-- `s.toLowerCase()`.
unfoldable pub to_lower : String → String
unfolding lower_char
to_lower [] = []
to_lower (c ∷ s) = lower_char c ∷ to_lower s

-- The white space of ASCII, and the no-break space.
abbrev is_space : Char → Bool
is_space c = is_between 9 13 c || eqb (code c) 32 || eqb (code c) 160

trim_start : String → String
trim_start [] = []
trim_start (c ∷ s) = if is_space c then trim_start s else c ∷ s

trim_end : String → String
trim_end [] = []
trim_end (c ∷ s) = let rest = trim_end s in if is_space c && rest == "" then [] else c ∷ rest

-- `s.trim()`.
unfoldable pub trim : String → String
unfolding trim_start trim_end
trim s = trim_end (trim_start s)

-- `s.includes(t)`.
unfoldable pub contains : String → String → Bool
contains [] t = starts_with [] t
contains (c ∷ s) t = starts_with (c ∷ s) t || contains s t

-- `s.slice(0, n)`, of a text in the basic plane.
unfoldable pub slice_to : ℕ → String → String
slice_to zero s = ""
slice_to (suc n) [] = ""
slice_to (suc n) (c ∷ s) = c ∷ slice_to n s

-- What the runtime makes of the text of a date: `new Date(text).toLocaleString('en-IE', …)`.
abbrev pub ToLocale : Type 0
ToLocale = String → String

-- A text is truthy if it is not empty; `s || t`.
abbrev pub truthy : String → Bool
truthy s = not (s == "")

pub truthy_of_ne : (s : String) → s ≢ "" → truthy s ≡ true
truthy_of_ne s h = elim (Bool-cases (s == "")) [
  | inl e ↦ absurd (h ((eq_iff s "").0 e))
  | inr e ↦ rw e
]

-- Two literals differ if the test says so.
pub ne_of_test : (s t : String) → (s == t) ≡ false → s ≢ t
ne_of_test s t h e = let same : (s == t) ≡ true = (eq_iff s t).1 e in cc

abbrev pub or_text : String → String → String
or_text s t = if s == "" then t else s

-- `array.join(separator)`.
unfoldable pub join : String → List String → String
join sep List.[] = ""
join sep (List.◌∷◌ s List.[]) = s
join sep (List.◌∷◌ s (List.◌∷◌ t rest)) = s ++ (sep ++ join sep (List.◌∷◌ t rest))

-- A property of the numbers below a bound, tested one by one.
unfoldable pub holds_below : (ℕ → Bool) → ℕ → Bool
holds_below test zero = true
holds_below test (suc bound) = holds_below test bound && test bound

pub holds_below-lt :
    (test : ℕ → Bool) (bound k : ℕ) → k < bound → holds_below test bound ≡ true → test k ≡ true
unfolding holds_below
holds_below-lt test zero k lt h = elim lt [ ]
holds_below-lt test (suc bound) k lt h = ground (arith, holds_below-lt test bound k)

capitals_table :
    holds_below (λ k. not (is_between b'a' b'z' (char_at "ABCDEFGHIJKLMNOPQRSTUVWXYZ" k))) 26 ≡ true
unfolding holds_below
capitals_table = refl

not_between_capital :
    (k : ℕ) → k < 26 → is_between b'a' b'z' (char_at "ABCDEFGHIJKLMNOPQRSTUVWXYZ" k) ≡ false
not_between_capital k h = ground (arith, holds_below-lt _ 26 k h capitals_table)

upper_char_idem : (c : Char) → upper_char (upper_char c) ≡ upper_char c
unfolding upper_char
upper_char_idem c = elim (Bool-cases (is_between b'a' b'z' c)) [
  | inl e ↦ rw e (rw (not_between_capital (code c - b'a') (ground arith)))
  | inr e ↦ rw e (rw e)
]

-- Upper-casing twice is upper-casing once.
pub to_upper_idem : (s : String) → to_upper (to_upper s) ≡ to_upper s
unfolding to_upper
to_upper_idem [] = refl
to_upper_idem (c ∷ s) = cc (upper_char_idem c, to_upper_idem s)
