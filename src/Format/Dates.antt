-- ===== src/Format/Dates.antt =====
-- frontend/src/lib/utils/format.ts: dates and times as texts. A `Date` is what its methods say of the
-- local time, `parse` is `new Date` of a text.
pub mod Distinct
use harmony_saas_multitenanc.Base.{
  Outcome, returned, thrown, ℕ, zero, suc, ◌+◌, ◌-◌, ◌*◌, ◌/◌, ◌%◌, ◌≤◌, ◌<◌, Bool, true, false,
  ◌&&◌, Option, none, some, List, [], ◌∷◌, ◌++◌, ◌≡◌, refl, ◌∙◌, ap, sym, arith, length, all,
  if◌then◌else◌,
}
use harmony_saas_multitenanc.Base.Characters.{Text, codes, is_digit, pad_start, text_eq}
use harmony_saas_multitenanc.Numerals.{to_double, finite, digits, value, leading_digits}
use harmony_saas_multitenanc.Format.{FormatSettings, format_currency, format_quantity}

-- The year is one of the common era.
pub record LocalTime : Type 0 where
  pub full_year : ℕ
  pub month_index : ℕ
  pub day : ℕ
  pub hours : ℕ
  pub minutes : ℕ
  pub seconds : ℕ

-- A moment that is not valid is `none`.
pub data DateArgument : Type 0 where
  nothing : DateArgument
  date_text : Text → DateArgument
  moment : Option LocalTime → DateArgument

unfoldable pub local_time : (Text → Option LocalTime) → DateArgument → Option LocalTime
local_time parse nothing = none
local_time parse (date_text []) = none
local_time parse (date_text (c ∷ s)) = parse (c ∷ s)
local_time parse (moment m) = m

unfoldable pub two_digits : ℕ → Text
unfolding pad_start digits
two_digits n = pad_start 2 (digits n)

abbrev pub with_separator : ℕ → Text → Text → Text → Text
with_separator c a b d = a ++ (c ∷ (b ++ (c ∷ d)))

-- A template of `switch`: in which order the parts stand, and what stands between them.
pub data Template : Type 0 where
  day_first month_first year_first : ℕ → Template

abbrev pub laid : Template → Text → Text → Text → Text
laid (day_first c) day month year = with_separator c day month year
laid (month_first c) day month year = with_separator c month day year
laid (year_first c) day month year = with_separator c year month day

-- The cases of the `switch`, in their order, and its default.
abbrev pub format_cases : List (Text × Template)
format_cases =
    (codes "DD/MM/YYYY", day_first b'/')
    ∷ (codes "MM/DD/YYYY", month_first b'/')
    ∷ (codes "YYYY-MM-DD", year_first b'-')
    ∷ (codes "DD-MM-YYYY", day_first b'-')
    ∷ (codes "DD.MM.YYYY", day_first b'.')
    ∷ []

unfoldable pub template_in : List (Text × Template) → Text → Template
unfolding text_eq
template_in [] format = day_first b'/'
template_in ((label, t) ∷ rest) format = if text_eq format label then t else template_in rest format

unfoldable pub arranged : Text → Text → Text → Text → Text
unfolding template_in
arranged format day month year = laid (template_in format_cases format) day month year

unfoldable pub date_part : FormatSettings → LocalTime → Text
unfolding arranged two_digits digits
date_part settings d =
    arranged settings.date_format (two_digits d.day) (two_digits (d.month_index + 1))
      (digits d.full_year)

unfoldable pub format_date : (Text → Option LocalTime) → DateArgument → FormatSettings → Text
unfolding local_time date_part
format_date parse date settings = elim (local_time parse date) [
  | none ↦ codes "-"
  | some d ↦ date_part settings d
]

unfoldable pub format_date_time :
    (Text → Option LocalTime) → DateArgument → FormatSettings → Bool → Text
unfolding local_time date_part two_digits
format_date_time parse date settings include_seconds = elim (local_time parse date) [
  | none ↦ codes "-"
  | some d ↦
      let clock = two_digits d.hours ++ (b':' ∷ two_digits d.minutes) in
      let time = if include_seconds then clock ++ (b':' ∷ two_digits d.seconds) else clock in
      date_part settings d ++ (b' ' ∷ time)
]

pub record FormatPreview : Type 0 where
  pub currency : Text
  pub number : Text
  pub date : Text

abbrev preview_of : Text → Outcome Text → Outcome Text → Outcome FormatPreview
preview_of date thrown number = thrown
preview_of date (returned currency) thrown = thrown
preview_of date (returned currency) (returned number) =
    returned (record { currency = currency; number = number; date = date })

-- It throws where an amount cannot be written.
unfoldable pub get_format_preview :
    (Text → Option LocalTime) → Option LocalTime → FormatSettings → Outcome FormatPreview
unfolding format_currency format_quantity format_date
get_format_preview parse now settings =
    preview_of (format_date parse (moment now) settings)
      (format_currency (some (to_double (finite false 123456789 2))) settings)
      (format_quantity (some (to_double (finite false 12345 1))) settings)
