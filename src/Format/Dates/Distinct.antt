-- ===== src/Format/Dates/Distinct.antt =====
-- Different days have different texts.
use harmony_saas_multitenanc.Base.{
  ℕ, ◌+◌, ◌/◌, ◌%◌, ◌<◌, Bool, true, false, not, Option, some, List, [], ◌∷◌, ◌++◌, ◌≡◌, refl, ◌∙◌,
  ap, sym, arith, all, all_below, all_below-holds,
}
use harmony_saas_multitenanc.Base.Characters.{Text, is_digit, text_eq}
use harmony_saas_multitenanc.Format.Offered.{text_eq→eq}
use harmony_saas_multitenanc.Numerals.{digits, value, leading_digits}
use harmony_saas_multitenanc.Numerals.Reading.{digits-value, leading_digits-stop, digits-AllDigits}
use harmony_saas_multitenanc.Format.{FormatSettings}
use harmony_saas_multitenanc.Format.Dates.{
  LocalTime, DateArgument, local_time, two_digits, with_separator, Template, day_first, month_first,
  year_first, laid, format_cases, template_in, arranged, date_part, format_date,
}

-- The months are 0 to 11, the days are below 32.
pub record IsDate (d : LocalTime) : Type 0 where
  pub month_range : d.month_index < 12
  pub day_range : d.day < 32

abbrev pair_of : ℕ → Text
pair_of n = (b'0' + n / 10) ∷ (b'0' + n % 10) ∷ []

two_digits_table : all_below 100 (λ n. text_eq (two_digits n) (pair_of n)) ≡ true
unfolding two_digits text_eq
two_digits_table = refl

two_digits_lem : (n : ℕ) → n < 100 → two_digits n ≡ pair_of n
two_digits_lem n h =
    text_eq→eq (two_digits n) (pair_of n)
      (all_below-holds 100 (λ k. text_eq (two_digits k) (pair_of k)) n two_digits_table h)

digits-injective : (m n : ℕ) → digits m ≡ digits n → m ≡ n
digits-injective m n h = sym (digits-value m) ∙ ap (value 0) h ∙ digits-value n

-- Two numbers below 100 and a year, with the year last or first.
year_last :
    (c a b y a' b' y' : ℕ)
    → a < 100
    → b < 100
    → a' < 100
    → b' < 100
    → with_separator c (two_digits a) (two_digits b) (digits y)
      ≡ with_separator c (two_digits a') (two_digits b') (digits y')
    → (a ≡ a') × (b ≡ b') × (y ≡ y')
year_last c a b y a' b' y' ha hb ha' hb' h =
    let k : with_separator c (pair_of a) (pair_of b) (digits y)
        ≡ with_separator c (pair_of a') (pair_of b') (digits y') =
      rw (two_digits_lem a ha, two_digits_lem b hb, two_digits_lem a' ha', two_digits_lem b' hb') at
        h in
    let e : digits y ≡ digits y' = cc k in (ground arith, ground arith, digits-injective y y' e)

year_first_lem :
    (c y a b y' a' b' : ℕ)
    → is_digit c ≡ false
    → a < 100
    → b < 100
    → a' < 100
    → b' < 100
    → with_separator c (digits y) (two_digits a) (two_digits b)
      ≡ with_separator c (digits y') (two_digits a') (two_digits b')
    → (y ≡ y') × (a ≡ a') × (b ≡ b')
year_first_lem c y a b y' a' b' hc ha hb ha' hb' h =
    let k : with_separator c (digits y) (pair_of a) (pair_of b)
        ≡ with_separator c (digits y') (pair_of a') (pair_of b') =
      rw (two_digits_lem a ha, two_digits_lem b hb, two_digits_lem a' ha', two_digits_lem b' hb') at
        h in
    let e : ◌≡◌ {A = Text × Text} (digits y, c ∷ (pair_of a ++ c ∷ pair_of b))
        (digits y', c ∷ (pair_of a' ++ c ∷ pair_of b')) =
      sym (leading_digits-stop (digits y) c (pair_of a ++ c ∷ pair_of b) (digits-AllDigits y) hc)
      ∙ ap leading_digits k
      ∙ leading_digits-stop (digits y') c (pair_of a' ++ c ∷ pair_of b') (digits-AllDigits y') hc in
    let rest : c ∷ (pair_of a ++ c ∷ pair_of b) ≡ c ∷ (pair_of a' ++ c ∷ pair_of b') =
      ap (λ p. p.1) e in
    (digits-injective y y' (ap (λ p. p.0) e), ground arith, ground arith)

-- What stands between the parts is no digit, where the year is first.
abbrev is_separated : Template → Bool
is_separated (day_first c) = true
is_separated (month_first c) = true
is_separated (year_first c) = not (is_digit c)

template_in-separated :
    (cases : List (Text × Template)) (format : Text)
    → all (λ (p : Text × Template). is_separated p.1) cases ≡ true
    → is_separated (template_in cases format) ≡ true
unfolding template_in
template_in-separated [] format h = refl
template_in-separated ((label, t) ∷ rest) format h =
    ground (arith, template_in-separated rest format)

abbrev pub SameDay : LocalTime → LocalTime → Type 0
SameDay d e = (d.day ≡ e.day) × (d.month_index ≡ e.month_index) × (d.full_year ≡ e.full_year)

laid-distinct :
    (t : Template) (d e : LocalTime)
    → is_separated t ≡ true
    → IsDate d
    → IsDate e
    → laid t (two_digits d.day) (two_digits (d.month_index + 1)) (digits d.full_year)
      ≡ laid t (two_digits e.day) (two_digits (e.month_index + 1)) (digits e.full_year)
    → SameDay d e
laid-distinct (day_first c) d e s hd he h = omega (
  arith,
  year_last c d.day (d.month_index + 1) d.full_year e.day (e.month_index + 1) e.full_year
      (omega arith) (omega arith) (omega arith) (omega arith) h,
)
laid-distinct (month_first c) d e s hd he h = omega (
  arith,
  year_last c (d.month_index + 1) d.day d.full_year (e.month_index + 1) e.day e.full_year
      (omega arith) (omega arith) (omega arith) (omega arith) h,
)
laid-distinct (year_first c) d e s hd he h = omega (
  arith,
  year_first_lem c d.full_year (d.month_index + 1) d.day e.full_year (e.month_index + 1) e.day
      (ground arith) (omega arith) (omega arith) (omega arith) (omega arith) h,
)

date_part-distinct :
    (settings : FormatSettings) (d e : LocalTime)
    → IsDate d
    → IsDate e
    → date_part settings d ≡ date_part settings e
    → SameDay d e
unfolding date_part arranged
date_part-distinct settings d e hd he h =
    laid-distinct (template_in format_cases settings.date_format) d e
      (template_in-separated format_cases settings.date_format refl) hd he h

format_date-some :
    (parse : Text → Option LocalTime) (settings : FormatSettings) (a : DateArgument) (d : LocalTime)
    → local_time parse a ≡ some d
    → format_date parse a settings ≡ date_part settings d
unfolding format_date
format_date-some parse settings a d h = ground arith

-- Whatever the format, two valid dates with the same text are the same day.
pub format_date-distinct :
    (parse : Text → Option LocalTime) (settings : FormatSettings) (a b : DateArgument)
    (d e : LocalTime)
    → local_time parse a ≡ some d
    → local_time parse b ≡ some e
    → IsDate d
    → IsDate e
    → format_date parse a settings ≡ format_date parse b settings
    → SameDay d e
format_date-distinct parse settings a b d e da eb hd he h =
    date_part-distinct settings d e hd he
      (sym (format_date-some parse settings a d da) ∙ h ∙ format_date-some parse settings b e eb)
