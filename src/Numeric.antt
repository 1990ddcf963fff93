-- ===== src/Numeric.antt =====
-- Numbers that the pages show: `Math.round`, `toFixed` and comparisons, on fractions `num / den` of
-- natural numbers, of which the decimal literals of the API are some.
-- The source computes in doubles. A double is rounded where a fraction is exact, so a result that
-- lies on a tie of the rounding can differ in its last digit.
use Prim.Native.String.{◌++◌}
use modera_shield.Base.{
  ℕ, zero, suc, ◌+◌, ◌*◌, ◌/◌, ◌%◌, ◌^◌, ◌≤◌, ◌<◌, ◌≡◌, refl, String, Bool, ltb, arith, show_number,
}
use modera_shield.Client.Types.{Decimal}

pub record Fraction : Type 0 where
  pub num : ℕ
  pub den : ℕ

abbrev pub fraction_of : Decimal → Fraction
fraction_of d = record { num = d.units; den = 10 ^ d.scale }

-- `Math.round(x)`: to the nearest integer, up on a tie.
pub round : Fraction → ℕ
round x = (2 * x.num + x.den) / (2 * x.den)

-- `x * k`
abbrev pub times : ℕ → Fraction → Fraction
times k x = record { num = k * x.num; den = x.den }

-- `x > 0.5`
unfoldable pub is_over_half : Fraction → Bool
is_over_half x = ltb x.den (2 * x.num)

-- The last `digits` decimal digits of `n`, with leading zeros.
padded : ℕ → ℕ → String
padded zero n = ""
padded (suc digits) n = padded digits (n / 10) ++ show_number (n % 10)

-- `x.toFixed(digits)` for at least one digit.
pub to_fixed : ℕ → Fraction → String
unfolding padded
to_fixed digits x =
    let n = round (times (10 ^ digits) x) in
    show_number (n / 10 ^ digits) ++ ("." ++ padded digits (n % 10 ^ digits))

test_to_fixed :
    (to_fixed 4 (record { num = 97; den = 100 }) ≡ "0.9700")
    × (to_fixed 1 (record { num = 200; den = 3 }) ≡ "66.7")
unfolding to_fixed round show_number
test_to_fixed = (refl, refl)

-- Rounding to the nearest: twice the distance to the fraction is at most one.
round_nearest :
    (x : Fraction)
    → 0 < x.den
    → (2 * (round x * x.den) ≤ 2 * x.num + x.den) × (2 * x.num < 2 * (round x * x.den) + x.den)
unfolding round
round_nearest x h = (omega arith, omega arith)
