-- ===== src/Numerals.antt =====
-- What frontend/src/lib/utils/format.ts uses between numbers of JavaScript and texts: `toFixed` and `parseFloat`.
pub mod Reading
pub use harmony_saas_multitenanc.Doubles.{Number, nan, infinite, finite}
unfoldable pub use harmony_saas_multitenanc.Doubles.{to_double}
use harmony_saas_multitenanc.Doubles.{nearest, half_even}
use harmony_saas_multitenanc.Base.{
  ℕ, zero, suc, ◌+◌, ◌-◌, ◌*◌, ◌/◌, ◌%◌, Bool, true, false, not, ◌&&◌, ◌||◌, Option, none, some,
  List, [], ◌∷◌, ◌++◌, length, ltb, nat_eq, if◌then◌else◌, Outcome, returned, thrown,
}
use Prim.Native.Nat.{◌^◌}
use mathlib.Core.List.{foldl}
use harmony_saas_multitenanc.Base.Characters.{Text, codes, is_digit, trim_start, strip_prefix}

-- The decimal digits of a number, in front of `out`.
unfoldable pub digits_from : ℕ → ℕ → Text → Text
digits_from zero n out = out
digits_from (suc rounds) n out =
    let rest = digits_from rounds (n / 10) ((b'0' + n % 10) ∷ out) in
    if ltb n 10 then (b'0' + n) ∷ out else rest

-- A number has at most as many digits as it counts, and one.
unfoldable pub digits : ℕ → Text
unfolding digits_from
digits n = digits_from (suc n) n []

-- The last `places` digits, and the number without them.
unfoldable pub last_digits : ℕ → ℕ → Text → Text
last_digits zero n out = out
last_digits (suc places) n out = last_digits places (n / 10) ((b'0' + n % 10) ∷ out)

unfoldable pub without_digits : ℕ → ℕ → ℕ
without_digits zero n = n
without_digits (suc places) n = without_digits places (n / 10)

-- The whole number nearest to units / 10 ^ places * 10 ^ decimals, the larger one of two.
unfoldable pub fixed_units : ℕ → ℕ → ℕ → ℕ
fixed_units units places decimals = (2 * (units * 10 ^ decimals) + 10 ^ places) / (2 * 10 ^ places)

abbrev pub sign_of : Bool → Text
sign_of negative = if negative then b'-' ∷ [] else []

-- The two parts of `toFixed` for units / 10 ^ decimals.
unfoldable pub integer_part : Bool → ℕ → ℕ → Text
unfolding digits without_digits
integer_part negative units decimals = sign_of negative ++ digits (without_digits decimals units)

unfoldable pub decimal_part : ℕ → ℕ → Text
unfolding last_digits
decimal_part units decimals = last_digits decimals units []

-- A whole number that is a double is the nearest one to s * power.
abbrev is_number : ℕ → Number → Bool
is_number n nan = false
is_number n (infinite negative) = false
is_number n (finite negative units places) = nat_eq units n && nat_eq places 0

abbrev reads_back : ℕ → ℕ → ℕ → Bool
reads_back n power s = is_number n (nearest false (s * power) 1)

-- Of the two numbers of digits around n / power, the one that is not the nearer.
abbrev farther : ℕ → ℕ → ℕ
farther n power = if nat_eq (half_even n power) (n / power) then n / power + 1 else n / power

-- The fewest digits that read back as the double n, from the power of ten of its first digit on; seventeen are
-- always enough.
unfoldable pub shortest : ℕ → ℕ → ℕ → ℕ × ℕ
unfolding nearest half_even
shortest zero power n = (n, 1)
shortest (suc rounds) power n =
    let later = shortest rounds (power / 10) n in
    if reads_back n power (half_even n power)
    then (half_even n power, power)
    else if reads_back n power (farther n power)
    then (farther n power, power)
    else later

unfoldable pub without_zeros : ℕ → ℕ → ℕ
without_zeros zero n = n
without_zeros (suc rounds) n =
    let shorter = without_zeros rounds (n / 10) in if nat_eq (n % 10) 0 then shorter else n

-- The two sides of the point where a number is written with an exponent.
abbrev around_point : Bool → Text → Text → Text × Text
around_point negative [] end = (sign_of negative ++ end, [])
around_point negative (c ∷ []) end = (sign_of negative ++ c ∷ end, [])
around_point negative (c ∷ d ∷ s) end = (sign_of negative ++ c ∷ [], (d ∷ s) ++ end)

-- A double of 10 ^ 21 or more, which is a whole number, as a text.
unfoldable pub exponent_parts : Bool → ℕ → Text × Text
unfolding digits shortest without_zeros
exponent_parts negative n =
    let (s, power) = shortest 17 (10 ^ (length (digits n) - 1)) n in
    around_point negative (digits (without_zeros 18 s))
      (codes "e+" ++ digits (length (digits (s * power)) - 1))

-- `x.toFixed(decimals)` on both sides of its point, without the check of the decimals.
unfoldable pub fixed_parts : Number → ℕ → Text × Text
unfolding fixed_units integer_part decimal_part exponent_parts
fixed_parts nan decimals = (codes "NaN", [])
fixed_parts (infinite negative) decimals = (sign_of negative ++ codes "Infinity", [])
fixed_parts (finite negative units places) decimals =
    if ltb units (10 ^ 21 * 10 ^ places)
    then (
      integer_part (negative && ltb 0 units) (fixed_units units places decimals) decimals,
      decimal_part (fixed_units units places decimals) decimals,
    )
    else exponent_parts negative (units / 10 ^ places)

-- `x.toFixed(decimals).split('.')`, which throws for more than a hundred decimals.
unfoldable pub to_fixed : Number → ℕ → Outcome (Text × Text)
unfolding fixed_parts
to_fixed x decimals = if ltb 100 decimals then thrown else returned (fixed_parts x decimals)

-- The number that digits spell behind n.
abbrev pub value : ℕ → Text → ℕ
value = foldl (λ n c. n * 10 + (c - b'0'))

-- The digits at the beginning, and the rest.
unfoldable pub leading_digits : Text → Text × Text
leading_digits [] = ([], [])
leading_digits (c ∷ s) =
    let (found, rest) = leading_digits s in if is_digit c then (c ∷ found, rest) else ([], c ∷ s)

-- The exponent at the beginning of a text, if there is one, with its sign.
unfoldable pub exponent_digits : Bool → Text → Option (Bool × ℕ)
unfolding leading_digits
exponent_digits negative s = elim (leading_digits s).0 [
  | [] ↦ none
  | c ∷ more ↦ some (negative, value 0 (c ∷ more))
]

unfoldable pub exponent_sign : Text → Option (Bool × ℕ)
unfolding exponent_digits
exponent_sign [] = none
exponent_sign (c ∷ s) =
    if nat_eq c b'-'
    then exponent_digits true s
    else if nat_eq c b'+'
    then exponent_digits false s
    else exponent_digits false (c ∷ s)

unfoldable pub exponent : Text → Option (Bool × ℕ)
unfolding exponent_sign
exponent [] = none
exponent (c ∷ s) = if nat_eq c b'e' || nat_eq c b'E' then exponent_sign s else none

unfoldable pub scaled : Bool → ℕ → ℕ → Option (Bool × ℕ) → Number
scaled negative units places none = finite negative units places
scaled negative units places (some (true, k)) = finite negative units (places + k)
scaled negative units places (some (false, k)) = finite negative (units * 10 ^ k) places

-- The decimals behind a point.
unfoldable pub fraction : Text → Text × Text
unfolding leading_digits
fraction [] = ([], [])
fraction (c ∷ s) = if nat_eq c b'.' then leading_digits s else ([], c ∷ s)

-- A number without a digit is infinite, or none.
unfoldable pub from_mantissa : Bool → Text → Text → ℕ → Option (Bool × ℕ) → Number
unfolding strip_prefix scaled
from_mantissa negative s [] places e = elim (strip_prefix (codes "Infinity") s) [
  | none ↦ nan
  | some _ ↦ infinite negative
]
from_mantissa negative s (c ∷ more) places e = scaled negative (value 0 (c ∷ more)) places e

unfoldable pub from_decimals : Bool → Text → Text → Text × Text → Number
unfolding from_mantissa exponent
from_decimals negative s whole (decimals, end) =
    from_mantissa negative s (whole ++ decimals) (length decimals) (exponent end)

unfoldable pub from_whole : Bool → Text → Text × Text → Number
unfolding from_decimals fraction
from_whole negative s (whole, rest) = from_decimals negative s whole (fraction rest)

unfoldable pub magnitude : Bool → Text → Number
unfolding leading_digits from_whole
magnitude negative s = from_whole negative s (leading_digits s)

unfoldable pub signed : Text → Number
unfolding magnitude
signed [] = nan
signed (c ∷ s) =
    if nat_eq c b'-'
    then magnitude true s
    else if nat_eq c b'+'
    then magnitude false s
    else magnitude false (c ∷ s)

-- The longest beginning that is a number, as the decimal that is written.
unfoldable pub read_decimal : Text → Number
unfolding signed trim_start
read_decimal s = signed (trim_start s)

-- `parseFloat(s)`
unfoldable pub parse_float : Text → Number
unfolding read_decimal to_double
parse_float s = to_double (read_decimal s)
