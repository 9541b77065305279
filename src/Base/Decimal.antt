-- ===== src/Base/Decimal.antt =====
-- The numbers of the program that are no whole numbers (coordinates, distances, percentages): a
-- JSON number is an exact decimal, `units` divided by the power of ten `places`. The program
-- hands them on and compares them; the rounding of a double is not modelled.
use native.Mathlib.Nat.{pow-suc, mul-le-mul_right, le_of_mul-le-mul_left}
use distributed_traffic_serv.Base.{
  ℕ, zero, suc, ◌+◌, ◌*◌, ◌^◌, ◌≤◌, ◌<◌, ◌≡◌, Bool, true, false, ltb, arith, String,
}

-- `negsuc n` is -(n + 1).
pub data ℤ : Type 0 where
  pos : ℕ → ℤ
  negsuc : ℕ → ℤ

abbrev pub pos_part : ℤ → ℕ
pos_part (pos n) = n
pos_part (negsuc n) = 0

abbrev pub neg_part : ℤ → ℕ
neg_part (pos n) = 0
neg_part (negsuc n) = suc n

pub record Decimal : Type 0 where
  pub units : ℤ
  pub places : ℕ

abbrev scale : Decimal → ℕ
scale d = 10 ^ d.places

-- `a < b`, over the common denominator. Also `b - a > 0`, as a comparator reads it.
unfoldable pub ltb_decimal : Decimal → Decimal → Bool
ltb_decimal a b =
    ltb (pos_part a.units * scale b + neg_part b.units * scale a)
      (pos_part b.units * scale a + neg_part a.units * scale b)

-- `x.toFixed(1)`, which the runtime computes of the double.
abbrev pub ToFixed : Type 0
ToFixed = Decimal → String

-- The decimal with the given digits, `places` of them behind the point.
abbrev pub dec : ℕ → ℕ → Decimal
dec n places = record { units = pos n; places = places }

-- The same, below zero.
abbrev pub minus : ℕ → ℕ → Decimal
minus zero places = dec 0 places
minus (suc n) places = record { units = negsuc n; places = places }

pub ltb_decimal_asym : (a b : Decimal) → ltb_decimal a b ≡ true → ltb_decimal b a ≡ false
unfolding ltb_decimal
ltb_decimal_asym a b h = ground arith

scale_pos : (n : ℕ) → 0 < 10 ^ n
scale_pos zero = omega arith
scale_pos (suc n) = rw (pow-suc 10 n) (omega (arith, scale_pos n))

cross :
    (a a' b b' c c' p q r : ℕ)
    → 0 < q
    → b * p + a' * q ≤ a * q + b' * p
    → c * q + b' * r ≤ b * r + c' * q
    → c * p + a' * r ≤ a * r + c' * p
cross a a' b b' c c' p q r h x y =
    le_of_mul-le-mul_left {k = q} (omega (arith, mul-le-mul_right r x, mul-le-mul_right p y)) h

pub ltb_decimal_negtrans :
    (a b c : Decimal) → ltb_decimal a b ≡ false → ltb_decimal b c ≡ false → ltb_decimal a c ≡ false
unfolding ltb_decimal
ltb_decimal_negtrans a b c h k = ground (
  arith,
  scale_pos b.places,
  cross (pos_part a.units) (neg_part a.units) (pos_part b.units) (neg_part b.units)
      (pos_part c.units) (neg_part c.units) (scale a) (scale b) (scale c),
)
