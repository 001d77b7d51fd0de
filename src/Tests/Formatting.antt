-- ===== src/Tests/Formatting.antt =====
-- Amounts and dates at concrete settings.
use harmony_saas_multitenanc.Base.{true, false, none, some, ◌≡◌, refl, arith, returned, thrown, ◌*◌}
use harmony_saas_multitenanc.Base.Characters.{Text, codes, text_eq}
use harmony_saas_multitenanc.Numerals.{infinite, finite, to_double, fixed_units, parse_float}
use harmony_saas_multitenanc.Doubles.{rounded_value, times, over, math_round, power_of_ten}
use Prim.Native.Nat.{◌^◌}
use harmony_saas_multitenanc.Format.{
  FormatSettings, after, default_format_settings, format_number, format_currency, or_zero,
  parse_formatted_number,
}
use harmony_saas_multitenanc.Format.Offered.{IsOffered}
use harmony_saas_multitenanc.Format.RoundTrip.{parse_formatted_number-format_currency}
use harmony_saas_multitenanc.Format.Dates.{
  LocalTime, moment, local_time, format_date, format_date_time,
}
use harmony_saas_multitenanc.Format.Dates.Distinct.{IsDate, SameDay, format_date-distinct}

abbrev dollars : FormatSettings
dollars = record {
  currency_code = codes "USD";
  currency_symbol_position = after;
  decimal_separator = codes ".";
  thousands_separator = codes ",";
  price_decimal_places = 2;
  quantity_decimal_places = 3;
  date_format = codes "YYYY-MM-DD";
  timezone = codes "UTC";
}

-- The page lets the same separator be chosen twice.
abbrev points : FormatSettings
points = record default_format_settings { decimal_separator = codes "."; price_decimal_places = 2 }

grouped_default :
    format_currency (some (to_double (finite false 123456789 2))) default_format_settings
    ≡ returned (codes "Rp 1.234.568")
unfolding format_currency to_double
grouped_default = refl

grouped_negative :
    format_currency (some (to_double (finite true 1234567894 3))) dollars
    ≡ returned (codes "-1,234,567.89 $")
unfolding format_currency to_double
grouped_negative = refl

-- The double nearest to 0.285, times 100, is below 28.5.
below_half :
    format_currency (some (to_double (finite false 285 3))) dollars ≡ returned (codes "0.28 $")
unfolding format_currency to_double
below_half = refl

-- A number that is rounded to zero has no sign, and an infinite one no digits.
rounded_to_zero :
    format_currency (some (to_double (finite true 4 1))) default_format_settings
    ≡ returned (codes "Rp 0")
unfolding format_currency to_double
rounded_to_zero = refl

infinite_number : format_number (some (infinite true)) 2 dollars ≡ returned (codes "-Infinity")
unfolding format_number
infinite_number = refl

-- From 10 ^ 21 on there is an exponent, and with more than a hundred decimals there is no text.
large_number :
    format_currency (some (to_double (finite false (15 * 10 ^ 20) 0))) dollars
    ≡ returned (codes "1.5e+21 $")
unfolding format_currency to_double
large_number = refl

many_decimals : format_number (some (finite false 1 0)) 101 dollars ≡ thrown
unfolding format_number
many_decimals = refl

longest_beginning : parse_float (codes " 12.5e-1kg") ≡ finite false 125 2
unfolding parse_float
longest_beginning = refl

points_twice : format_currency (some (finite false 1500 0)) points ≡ returned (codes "Rp 1.500.00")
unfolding format_currency
points_twice = refl

dollars-IsOffered : IsOffered dollars
unfolding text_eq
dollars-IsOffered = record {
  currency = refl;
  decimal = refl;
  thousands = refl;
  decimals = omega arith;
}

parse_formatted_number-format_currency_example :
    (formatted' : Text) × (format_currency (some (to_double (finite true 12503 3))) dollars
      ≡ returned formatted')
    × (parse_formatted_number formatted' dollars ≡ or_zero (to_double (finite true 1250 2)))
unfolding fixed_units text_eq to_double rounded_value times over math_round power_of_ten
parse_formatted_number-format_currency_example =
    parse_formatted_number-format_currency dollars (to_double (finite true 12503 3)) true 125 1
      dollars-IsOffered refl refl

abbrev morning : LocalTime
morning = record { full_year = 2026; month_index = 0; day = 9; hours = 8; minutes = 5; seconds = 7 }

abbrev evening : LocalTime
evening = record morning { hours = 20 }

written_date :
    format_date_time (λ s. none) (moment (some morning)) dollars true ≡ codes "2026-01-09 08:05:07"
unfolding format_date_time
written_date = refl

same_text :
    format_date (λ s. none) (moment (some morning)) dollars
    ≡ format_date (λ s. none) (moment (some evening)) dollars
unfolding format_date
same_text = refl

morning-IsDate : IsDate morning
morning-IsDate = record { month_range = omega arith; day_range = omega arith }

evening-IsDate : IsDate evening
evening-IsDate = record { month_range = omega arith; day_range = omega arith }

format_date-distinct_example : SameDay morning evening
unfolding local_time
format_date-distinct_example =
    format_date-distinct (λ s. none) dollars (moment (some morning)) (moment (some evening)) morning
      evening refl refl morning-IsDate evening-IsDate same_text
