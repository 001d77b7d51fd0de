-- ===== src/Format.antt =====
-- frontend/src/lib/utils/format.ts: the settings of a tenant, and numbers, amounts, dates and times as
-- texts. A separator has no `$`, which `replace` would read as a pattern.
pub mod Grouping
pub mod Threes
pub mod Unwrapping
pub mod Offered
pub mod Written
pub mod RoundTrip
pub mod Dates
use harmony_saas_multitenanc.Base.{
  ℕ, zero, suc, ◌+◌, ◌%◌, String, Bool, true, false, ◌&&◌, Option, none, some, List, [], ◌∷◌, ◌++◌,
  length, ltb, nat_eq, if◌then◌else◌, Outcome, returned, thrown,
}
use harmony_saas_multitenanc.Base.Characters.{
  Text, codes, is_digit, trim, replace_first, remove_all, to_upper, text_eq,
}
use harmony_saas_multitenanc.Numerals.{
  Number, nan, infinite, finite, to_fixed, leading_digits, parse_float,
}
use harmony_saas_multitenanc.Doubles.{rounded_value}

pub data Position : Type 0 where
  before after : Position

pub record FormatSettings : Type 0 where
  pub currency_code : Text
  pub currency_symbol_position : Position
  pub decimal_separator : Text
  pub thousands_separator : Text
  pub price_decimal_places : ℕ
  pub quantity_decimal_places : ℕ
  pub date_format : Text
  pub timezone : Text

abbrev pub default_format_settings : FormatSettings
default_format_settings = record {
  currency_code = codes "IDR";
  currency_symbol_position = before;
  decimal_separator = codes ",";
  thousands_separator = codes ".";
  price_decimal_places = 0;
  quantity_decimal_places = 0;
  date_format = codes "DD/MM/YYYY";
  timezone = codes "Asia/Jakarta";
}

abbrev pub currency_symbols : List (Text × Text)
currency_symbols =
    (codes "IDR", codes "Rp")
    ∷ (codes "USD", codes "$")
    ∷ (codes "EUR", codes "€")
    ∷ (codes "GBP", codes "£")
    ∷ (codes "JPY", codes "¥")
    ∷ (codes "CNY", codes "¥")
    ∷ (codes "SGD", codes "S$")
    ∷ (codes "MYR", codes "RM")
    ∷ (codes "THB", codes "฿")
    ∷ (codes "PHP", codes "₱")
    ∷ (codes "VND", codes "₫")
    ∷ (codes "KRW", codes "₩")
    ∷ (codes "INR", codes "₹")
    ∷ (codes "AUD", codes "A$")
    ∷ (codes "CAD", codes "C$")
    ∷ (codes "CHF", codes "CHF")
    ∷ (codes "HKD", codes "HK$")
    ∷ (codes "NZD", codes "NZ$")
    ∷ (codes "SEK", codes "kr")
    ∷ (codes "NOK", codes "kr")
    ∷ (codes "DKK", codes "kr")
    ∷ (codes "AED", (0x62f ∷ b'.' ∷ 0x625 ∷ []))
    ∷ (codes "SAR", (0xfdfc ∷ []))
    ∷ (codes "BRL", codes "R$")
    ∷ (codes "MXN", codes "$")
    ∷ (codes "ZAR", codes "R")
    ∷ (codes "RUB", codes "₽")
    ∷ (codes "TRY", codes "₺")
    ∷ (codes "PLN", codes "zł")
    ∷ (codes "CZK", codes "Kč")
    ∷ (codes "HUF", codes "Ft")
    ∷ []

-- `table[key] || otherwise`; no key in capitals is one that an object inherits, and no symbol is empty.
unfoldable pub symbol_or : List (Text × Text) → Text → Text → Text
unfolding text_eq
symbol_or [] key otherwise = otherwise
symbol_or ((k, symbol) ∷ rest) key otherwise =
    if text_eq k key then symbol else symbol_or rest key otherwise

unfoldable pub get_currency_symbol : Text → Text
unfolding symbol_or to_upper
get_currency_symbol code = symbol_or currency_symbols (to_upper code) code

-- Between two digits, a separator stands where the digits from there on are a multiple of three.
unfoldable pub insert_separators : Text → Bool → Text → Text
unfolding leading_digits
insert_separators separator word [] = []
insert_separators separator word (c ∷ s) =
    let rest = c ∷ insert_separators separator (is_digit c) s in
    if word && is_digit c && nat_eq (length (leading_digits (c ∷ s)).0 % 3) 0
    then separator ++ rest
    else rest

-- The two parts of `toFixed`, put together again.
unfoldable pub join_parts : FormatSettings → ℕ → Text → Text → Text
unfolding insert_separators
join_parts settings decimals int_part dec_part =
    let formatted_int = insert_separators settings.thousands_separator false int_part in
    if ltb 0 decimals && ltb 0 (length dec_part)
    then formatted_int ++ (settings.decimal_separator ++ dec_part)
    else formatted_int

abbrev after_fixed : FormatSettings → ℕ → Outcome (Text × Text) → Outcome Text
after_fixed settings decimals thrown = thrown
after_fixed settings decimals (returned (int_part, dec_part)) =
    returned (join_parts settings decimals int_part dec_part)

-- A value that is null or undefined is `none`.
unfoldable pub format_number : Option Number → ℕ → FormatSettings → Outcome Text
unfolding join_parts rounded_value to_fixed
format_number none decimals settings = returned (codes "-")
format_number (some nan) decimals settings = returned (codes "-")
format_number (some value) decimals settings =
    after_fixed settings decimals (to_fixed (rounded_value value decimals) decimals)

unfoldable pub with_symbol : Position → Text → Text → Text
with_symbol before symbol number = symbol ++ (b' ' ∷ number)
with_symbol after symbol number = number ++ (b' ' ∷ symbol)

abbrev around_symbol : FormatSettings → Text → Outcome Text → Outcome Text
around_symbol settings symbol thrown = thrown
around_symbol settings symbol (returned number) =
    returned (with_symbol settings.currency_symbol_position symbol number)

unfoldable pub format_currency : Option Number → FormatSettings → Outcome Text
unfolding format_number with_symbol get_currency_symbol
format_currency none settings = returned (codes "-")
format_currency (some nan) settings = returned (codes "-")
format_currency (some amount) settings =
    around_symbol settings (get_currency_symbol settings.currency_code)
      (format_number (some amount) settings.price_decimal_places settings)

unfoldable pub format_quantity : Option Number → FormatSettings → Outcome Text
unfolding format_number
format_quantity amount settings = format_number amount settings.quantity_decimal_places settings

unfoldable pub or_zero : Number → Number
or_zero nan = finite false 0 0
or_zero (infinite negative) = infinite negative
or_zero (finite negative units places) = finite negative units places

-- The text without the symbol and the separators.
unfoldable pub cleaned : Text → FormatSettings → Text
unfolding trim replace_first remove_all get_currency_symbol
cleaned formatted settings =
    let bare =
      trim (replace_first (get_currency_symbol settings.currency_code) [] (trim formatted)) in
    replace_first settings.decimal_separator (codes ".")
      (remove_all settings.thousands_separator bare)

unfoldable pub parse_formatted_number : Text → FormatSettings → Number
unfolding cleaned parse_float or_zero text_eq
parse_formatted_number [] settings = finite false 0 0
parse_formatted_number (c ∷ s) settings =
    if text_eq (c ∷ s) (codes "-")
    then finite false 0 0
    else or_zero (parse_float (cleaned (c ∷ s) settings))

-- The values that the pages offer for the settings of amounts.
abbrev pub currency_options : List Text
currency_options =
    codes "IDR"
    ∷ codes "USD"
    ∷ codes "EUR"
    ∷ codes "GBP"
    ∷ codes "SGD"
    ∷ codes "MYR"
    ∷ codes "JPY"
    ∷ codes "CNY"
    ∷ codes "AUD"
    ∷ codes "THB"
    ∷ codes "PHP"
    ∷ codes "VND"
    ∷ codes "INR"
    ∷ []

abbrev pub decimal_options : List Text
decimal_options = codes "," ∷ codes "." ∷ []

abbrev pub thousands_options : List Text
thousands_options = codes "." ∷ codes "," ∷ codes " " ∷ []
