-- ===== src/Numerals/Reading.antt =====
-- Digits that are written and read again.
use harmony_saas_multitenanc.Base.{
  ℕ, zero, suc, ◌+◌, ◌/◌, ◌%◌, ◌<◌, ◌≤◌, Bool, true, false, [], ◌∷◌, ◌++◌, ◌≡◌, refl, ◌∙◌, ap,
  arith, length, all, all-append, length-append, ◌||◌, nat_eq,
}
use mathlib.Core.List.{foldl-append, append-nil, append_assoc}
use harmony_saas_multitenanc.Base.Characters.{Text, is_digit, is_space}
use harmony_saas_multitenanc.Base.Cleaning.{starts_plain, trim_start-plain}
use harmony_saas_multitenanc.Numerals.{
  finite, digits_from, digits, last_digits, without_digits, value, leading_digits, from_whole,
  from_decimals, magnitude, signed, read_decimal, integer_part, decimal_part, sign_of,
}

digits_from-value :
    (rounds n : ℕ) (out : Text) → n < rounds → value 0 (digits_from rounds n out) ≡ value n out
unfolding digits_from
digits_from-value zero n out h = absurd (omega arith)
digits_from-value (suc rounds) n out h =
    ground (arith, digits_from-value rounds (n / 10) ((b'0' + n % 10) ∷ out))

pub digits-value : (n : ℕ) → value 0 (digits n) ≡ n
unfolding digits
digits-value n = digits_from-value (suc n) n [] (omega arith)

-- The digits behind the point continue those in front of it.
pub last_digits-value :
    (places n : ℕ) (out : Text)
    → value (without_digits places n) (last_digits places n out) ≡ value n out
unfolding last_digits without_digits
last_digits-value zero n out = refl
last_digits-value (suc places) n out =
    ground (arith, last_digits-value places (n / 10) ((b'0' + n % 10) ∷ out))

pub digits_from-digits :
    (rounds n : ℕ) (out : Text)
    → all is_digit out ≡ true
    → all is_digit (digits_from rounds n out) ≡ true
unfolding digits_from
digits_from-digits zero n out h = h
digits_from-digits (suc rounds) n out h =
    ground (arith, digits_from-digits rounds (n / 10) ((b'0' + n % 10) ∷ out))

pub last_digits-digits :
    (places n : ℕ) (out : Text)
    → all is_digit out ≡ true
    → all is_digit (last_digits places n out) ≡ true
unfolding last_digits
last_digits-digits zero n out h = h
last_digits-digits (suc places) n out h =
    ground (arith, last_digits-digits places (n / 10) ((b'0' + n % 10) ∷ out))

pub length-last_digits :
    (places n : ℕ) (out : Text) → length (last_digits places n out) ≡ places + length out
unfolding last_digits
length-last_digits zero n out = omega arith
length-last_digits (suc places) n out =
    omega (arith, length-last_digits places (n / 10) ((b'0' + n % 10) ∷ out))

length-digits_from : (rounds n : ℕ) (out : Text) → length out ≤ length (digits_from rounds n out)
unfolding digits_from
length-digits_from zero n out = omega arith
length-digits_from (suc rounds) n out =
    ground (arith, length-digits_from rounds (n / 10) ((b'0' + n % 10) ∷ out))

-- A number has a digit.
pub length-digits : (n : ℕ) → 0 < length (digits n)
unfolding digits digits_from
length-digits n = ground (arith, length-digits_from n (n / 10) ((b'0' + n % 10) ∷ []))

pub leading_digits-all : (s : Text) → all is_digit s ≡ true → leading_digits s ≡ (s, [])
unfolding leading_digits
leading_digits-all [] h = refl
leading_digits-all (c ∷ s) h = ground (arith, leading_digits-all s)

pub leading_digits-stop :
    (s : Text) (c : ℕ) (t : Text)
    → all is_digit s ≡ true
    → is_digit c ≡ false
    → leading_digits (s ++ c ∷ t) ≡ (s, c ∷ t)
unfolding leading_digits
leading_digits-stop [] c t h k = ground arith
leading_digits-stop (d ∷ s) c t h k = ground (arith, leading_digits-stop s c t)

abbrev pub AllDigits : Text → Type 0
AllDigits s = all is_digit s ≡ true

-- Digits, and digits around a point.
magnitude-whole :
    (negative : Bool) (c : ℕ) (s : Text)
    → AllDigits (c ∷ s)
    → magnitude negative (c ∷ s) ≡ finite negative (value 0 (c ∷ s)) 0
unfolding magnitude
magnitude-whole negative c s h =
    ap (from_whole negative (c ∷ s)) (leading_digits-all (c ∷ s) h)
    ∙ unfold from_whole in ap (λ t. finite negative (value 0 t) 0) (append-nil (c ∷ s))

magnitude-point :
    (negative : Bool) (c : ℕ) (s t : Text)
    → AllDigits (c ∷ s)
    → AllDigits t
    → magnitude negative ((c ∷ s) ++ b'.' ∷ t) ≡ finite negative (value 0 ((c ∷ s) ++ t)) (length t)
unfolding magnitude
magnitude-point negative c s t h k =
    ap (from_whole negative ((c ∷ s) ++ b'.' ∷ t)) (leading_digits-stop (c ∷ s) b'.' t h refl)
    ∙ unfold from_whole in
      ap (from_decimals negative ((c ∷ s) ++ b'.' ∷ t) (c ∷ s)) (leading_digits-all t k)

-- What `toFixed` writes is read as the number that it is written from; where the point is left out, as
-- that number times a power of ten.
sign_read :
    (negative : Bool) (c : ℕ) (s : Text)
    → is_digit c ≡ true
    → signed (sign_of negative ++ c ∷ s) ≡ magnitude negative (c ∷ s)
unfolding signed
sign_read negative c s h = ground arith

-- The first character of a number that is written is a digit or the minus sign.
sign_plain :
    (negative : Bool) (c : ℕ) (s : Text)
    → is_digit c ≡ true
    → starts_plain (sign_of negative ++ c ∷ s) ≡ true
unfolding is_space
sign_plain negative c s h = ground arith

read_sign :
    (negative : Bool) (c : ℕ) (s : Text)
    → is_digit c ≡ true
    → read_decimal (sign_of negative ++ c ∷ s) ≡ magnitude negative (c ∷ s)
unfolding read_decimal
read_sign negative c s h =
    ap signed {y = sign_of negative ++ c ∷ s} (trim_start-plain _ (sign_plain negative c s h))
    ∙ sign_read negative c s h

pub digits-AllDigits : (n : ℕ) → AllDigits (digits n)
unfolding digits
digits-AllDigits n = digits_from-digits (suc n) n [] refl

decimal_part-AllDigits : (units decimals : ℕ) → AllDigits (decimal_part units decimals)
unfolding decimal_part
decimal_part-AllDigits units decimals = last_digits-digits decimals units [] refl

pub length-decimal_part : (units decimals : ℕ) → length (decimal_part units decimals) ≡ decimals
unfolding decimal_part
length-decimal_part units decimals = omega (arith, length-last_digits decimals units [])

-- The number that both parts of `toFixed` spell together.
spelt :
    (units decimals : ℕ)
    → value 0 (digits (without_digits decimals units) ++ decimal_part units decimals) ≡ units
unfolding decimal_part
spelt units decimals =
    foldl-append _ 0 (digits (without_digits decimals units)) (last_digits decimals units [])
    ∙ ap (λ (n : ℕ). value n (last_digits decimals units []))
        (digits-value (without_digits decimals units))
    ∙ last_digits-value decimals units []

-- The digits of a number, and other digits, behind a point and without one.
written_point :
    (negative : Bool) (s t : Text)
    → 0 < length s
    → AllDigits s
    → AllDigits t
    → read_decimal ((sign_of negative ++ s) ++ b'.' ∷ t)
      ≡ finite negative (value 0 (s ++ t)) (length t)
written_point negative [] t l h k = absurd (omega arith)
written_point negative (c ∷ s) t l h k =
    ap read_decimal (append_assoc (sign_of negative) (c ∷ s) (b'.' ∷ t))
    ∙ read_sign negative c (s ++ b'.' ∷ t) (ground arith)
    ∙ magnitude-point negative c s t h k

written_joined :
    (negative : Bool) (s t : Text)
    → 0 < length s
    → AllDigits s
    → AllDigits t
    → read_decimal ((sign_of negative ++ s) ++ t) ≡ finite negative (value 0 (s ++ t)) 0
written_joined negative [] t l h k = absurd (omega arith)
written_joined negative (c ∷ s) t l h k =
    ap read_decimal (append_assoc (sign_of negative) (c ∷ s) t)
    ∙ read_sign negative c (s ++ t) (ground arith)
    ∙ magnitude-whole negative c (s ++ t) (all-append is_digit (c ∷ s) t h k)

module _ (negative : Bool) (units decimals : ℕ) where
  -- With the decimals behind a point, the number is read back.
  pub read_point :
      read_decimal (integer_part negative units decimals ++ b'.' ∷ decimal_part units decimals)
      ≡ finite negative units decimals
  unfolding integer_part
  read_point =
      let n = digits (without_digits decimals units) in
      let t = decimal_part units decimals in
      written_point negative n t (length-digits (without_digits decimals units))
        (digits-AllDigits (without_digits decimals units)) (decimal_part-AllDigits units decimals)
      ∙ cc (spelt units decimals, length-decimal_part units decimals)

  -- Without the point, the number is read times a power of ten.
  pub read_joined :
      read_decimal (integer_part negative units decimals ++ decimal_part units decimals)
      ≡ finite negative units 0
  unfolding integer_part
  read_joined =
      written_joined negative (digits (without_digits decimals units)) (decimal_part units decimals)
        (length-digits (without_digits decimals units))
        (digits-AllDigits (without_digits decimals units)) (decimal_part-AllDigits units decimals)
      ∙ cc (spelt units decimals)

-- The characters of a number that is written.
abbrev pub is_numeral_char : ℕ → Bool
is_numeral_char c = is_digit c || nat_eq c b'-'

digits-numeral : (s : Text) → AllDigits s → all is_numeral_char s ≡ true
digits-numeral [] h = refl
digits-numeral (c ∷ s) h = ground (arith, digits-numeral s)

pub integer_part-numeral :
    (negative : Bool) (units decimals : ℕ)
    → all is_numeral_char (integer_part negative units decimals) ≡ true
unfolding integer_part
integer_part-numeral negative units decimals =
    all-append is_numeral_char (sign_of negative) (digits (without_digits decimals units))
      (ground arith)
      (digits-numeral (digits (without_digits decimals units))
        (digits-AllDigits (without_digits decimals units)))

pub decimal_part-numeral :
    (units decimals : ℕ) → all is_numeral_char (decimal_part units decimals) ≡ true
decimal_part-numeral units decimals =
    digits-numeral (decimal_part units decimals) (decimal_part-AllDigits units decimals)

pub length-integer_part :
    (negative : Bool) (units decimals : ℕ) → 0 < length (integer_part negative units decimals)
unfolding integer_part
length-integer_part negative units decimals = omega (
  arith,
  length-append (sign_of negative) (digits (without_digits decimals units)),
  length-digits (without_digits decimals units),
)
