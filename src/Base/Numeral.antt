-- ===== src/Base/Numeral.antt =====
-- A whole number in a template literal: `${n}`.
use Prim.Native.String.{char_at, ◌∷◌}
use distributed_traffic_serv.Base.{ℕ, zero, suc, ◌/◌, ◌%◌, String, ltb, if◌then◌else◌}

-- The decimal digits in front of the text `rest`, with fuel for as many digits.
digits_from : ℕ → ℕ → String → String
digits_from zero n rest = rest
digits_from (suc fuel) n rest =
    let digit : String = char_at "0123456789" (n % 10) ∷ rest in
    let more = digits_from fuel (n / 10) digit in if ltb n 10 then digit else more

-- A number has no more digits than its successor counts.
unfoldable pub to_decimal : ℕ → String
unfolding digits_from
to_decimal n = digits_from (suc n) n ""
