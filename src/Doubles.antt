-- ===== src/Doubles.antt =====
-- Numbers of JavaScript and the arithmetic that frontend/src/lib/utils/format.ts does with them: each result is the
-- double nearest to the exact one, a tie going to the even one.
use harmony_saas_multitenanc.Base.{
  ℕ, zero, suc, ◌+◌, ◌-◌, ◌*◌, ◌/◌, ◌%◌, Bool, false, ◌&&◌, ◌||◌, Option, none, some, ltb, nat_eq,
  if◌then◌else◌,
}
use Prim.Native.Nat.{◌^◌}

-- `finite negative units places` is units / 10 ^ places, or less than zero.
pub data Number : Type 0 where
  nan : Number
  infinite : Bool → Number
  finite : Bool → ℕ → ℕ → Number

-- The quotient, rounded to the nearest whole number, a tie to the even one.
unfoldable pub half_even : ℕ → ℕ → ℕ
half_even n d =
    if ltb (2 * (n % d)) d || nat_eq (2 * (n % d)) d && nat_eq (n / d % 2) 0
    then n / d
    else n / d + 1

-- The least k from which on n is below d, where each step doubles d: a binade of n / d.
unfoldable pub binade : ℕ → ℕ → ℕ → ℕ → Option ℕ
binade zero k n d = none
binade (suc rounds) k n d =
    let later = binade rounds (suc k) n (2 * d) in if ltb n d then some k else later

-- m / 2 ^ e in the fewest decimals.
unfoldable pub in_decimals : Bool → ℕ → ℕ → Number
in_decimals negative zero m = finite negative m 0
in_decimals negative (suc e) m =
    let halved = in_decimals negative e (m / 2) in
    if nat_eq (m % 2) 0 then halved else finite negative (m * 5 ^ suc e) (suc e)

-- The multiple m of 2 ^ k / 2 ^ 1074; from 2 ^ 1024 on a number is infinite.
unfoldable pub from_binade : Bool → ℕ → ℕ → Number
unfolding in_decimals
from_binade negative k m =
    if ltb (m * 2 ^ k) (2 ^ 2098)
    then in_decimals negative (1074 - k) (m * 2 ^ (k - 1074))
    else infinite negative

-- The double nearest to n / d. Its mantissa is below 2 ^ 53, and its last place is 2 ^ k / 2 ^ 1074, where k
-- is one of 2046.
unfoldable pub nearest : Bool → ℕ → ℕ → Number
unfolding binade from_binade half_even
nearest negative n d = elim (binade 2046 0 (n * 2 ^ 1074) (d * 2 ^ 53)) [
  | none ↦ infinite negative
  | some k ↦ from_binade negative k (half_even (n * 2 ^ 1074) (d * 2 ^ k))
]

-- The double that a decimal stands for.
unfoldable pub to_double : Number → Number
unfolding nearest
to_double nan = nan
to_double (infinite negative) = infinite negative
to_double (finite negative units places) = nearest negative units (10 ^ places)

-- `x * y`, for a y that is not negative.
unfoldable pub times : Number → Number → Number
unfolding nearest
times nan y = nan
times (infinite negative) nan = nan
times (infinite negative) (infinite _) = infinite negative
times (infinite negative) (finite _ units _) = if nat_eq units 0 then nan else infinite negative
times (finite negative units places) nan = nan
times (finite negative units places) (infinite _) =
    if nat_eq units 0 then nan else infinite negative
times (finite negative units places) (finite _ n p) =
    nearest negative (units * n) (10 ^ places * 10 ^ p)

-- `x / y`, for a y that is above zero.
unfoldable pub over : Number → Number → Number
unfolding nearest
over nan y = nan
over (infinite negative) nan = nan
over (infinite negative) (infinite _) = nan
over (infinite negative) (finite _ _ _) = infinite negative
over (finite negative units places) nan = nan
over (finite negative units places) (infinite _) = finite negative 0 0
over (finite negative units places) (finite _ n p) =
    nearest negative (units * 10 ^ p) (10 ^ places * n)

-- `Math.round(x)`: a half is rounded up.
unfoldable pub math_round : Number → Number
math_round nan = nan
math_round (infinite negative) = infinite negative
math_round (finite negative units places) =
    finite negative ((2 * units + 10 ^ places - (if negative then 1 else 0)) / (2 * 10 ^ places)) 0

-- `Math.pow(10, n)`
unfoldable pub power_of_ten : ℕ → Number
unfolding nearest
power_of_ten n = nearest false (10 ^ n) 1

-- `Math.round(x * Math.pow(10, n)) / Math.pow(10, n)`
unfoldable pub rounded_value : Number → ℕ → Number
unfolding times over math_round power_of_ten
rounded_value x n = over (math_round (times x (power_of_ten n))) (power_of_ten n)
