-- ===== src/Format/RoundTrip.antt =====
-- An amount that is formatted and parsed again.
use harmony_saas_multitenanc.Base.{
  ℕ, Bool, true, ◌&&◌, some, [], ◌∷◌, ◌++◌, ◌≡◌, refl, ◌∙◌, ap, arith, ltb, all, if◌then◌else◌,
  returned, ◌*◌, ◌≤◌, false,
}
use harmony_saas_multitenanc.Base.Characters.{Text, codes, trim, replace_first, remove_all, text_eq}
use harmony_saas_multitenanc.Base.Cleaning.{starts_plain, ends_plain}
use Prim.Native.Nat.{◌^◌}
use harmony_saas_multitenanc.Doubles.{times, over, math_round, rounded_value}
use harmony_saas_multitenanc.Numerals.{
  Number, nan, infinite, finite, to_double, fixed_units, integer_part, decimal_part, fixed_parts,
  to_fixed, parse_float,
}
use harmony_saas_multitenanc.Format.{
  FormatSettings, Position, before, after, decimal_options, thousands_options, get_currency_symbol,
  join_parts, with_symbol, format_number, format_currency, or_zero, cleaned, parse_formatted_number,
}
use harmony_saas_multitenanc.Format.Unwrapping.{is_amount_char, unwrapped-before, unwrapped-after}
use harmony_saas_multitenanc.Format.Offered.{
  IsOffered, offers-all, is_separator, mark_of, PlainSymbol, offered_symbol,
}
use harmony_saas_multitenanc.Format.Written.{
  written, written-starts, written-ends, written-amount, read_settings,
}

-- A text of more than one character is not the dash.
parse_long :
    (settings : FormatSettings) (c d : ℕ) (s u : Text)
    → parse_formatted_number (c ∷ (s ++ d ∷ u)) settings
      ≡ or_zero (parse_float (cleaned (c ∷ (s ++ d ∷ u)) settings))
unfolding parse_formatted_number text_eq
parse_long settings c d [] u = ground arith
parse_long settings c d (e ∷ s) u = ground arith

cleaned-bare :
    (settings : FormatSettings) (symbol f n : Text)
    → get_currency_symbol settings.currency_code ≡ symbol
    → trim (replace_first symbol [] (trim f)) ≡ n
    → cleaned f settings
      ≡ replace_first settings.decimal_separator
          (codes ".")
          (remove_all settings.thousands_separator n)
unfolding cleaned
cleaned-bare settings symbol f n e h =
    ap
      (λ b.
        replace_first settings.decimal_separator (codes ".")
          (remove_all settings.thousands_separator b))
      (ap (λ s. trim (replace_first s [] (trim f))) e ∙ h)

-- The parse of a number behind or in front of a symbol.
parse-with_symbol :
    (settings : FormatSettings) (position : Position) (n : Text) {x : Number}
    → PlainSymbol (get_currency_symbol settings.currency_code)
    → starts_plain n ≡ true
    → ends_plain n ≡ true
    → all is_amount_char n ≡ true
    → or_zero (
        parse_float (
          replace_first settings.decimal_separator
            (codes ".")
            (remove_all settings.thousands_separator n)))
      ≡ x
    → parse_formatted_number
        (with_symbol position (get_currency_symbol settings.currency_code) n)
        settings
      ≡ x
unfolding with_symbol
parse-with_symbol settings before n (p, ps, e, apart, front, back) first last amount h =
    ap (λ s. parse_formatted_number (s ++ (b' ' ∷ n)) settings) e
    ∙ parse_long settings p b' ' ps n
    ∙ ap (λ c. or_zero (parse_float c))
        (cleaned-bare settings (p ∷ ps) ((p ∷ ps) ++ (b' ' ∷ n)) n e
          (unwrapped-before p ps n apart front back first last amount))
    ∙ h
parse-with_symbol settings after [] symbol first last amount h = absurd (cc first)
parse-with_symbol settings after (c ∷ n) (p, ps, e, apart, front, back) first last amount h =
    ap (λ s. parse_formatted_number (c ∷ (n ++ (b' ' ∷ s))) settings) e
    ∙ parse_long settings c b' ' n (p ∷ ps)
    ∙ ap (λ c. or_zero (parse_float c))
        (cleaned-bare settings (p ∷ ps) ((c ∷ n) ++ (b' ' ∷ p ∷ ps)) (c ∷ n) e
          (unwrapped-after p ps (c ∷ n) apart front back first last amount))
    ∙ h

-- The decimals that the settings page offers are below the limit of `toFixed`.
few_decimals : (d : ℕ) → d ≤ 4 → ltb 100 d ≡ false
few_decimals d h = ground arith

-- The text of an amount below 10 ^ 21.
formatted :
    (settings : FormatSettings) (amount : Number) (negative : Bool) (units places : ℕ)
    → let decimals = settings.price_decimal_places in
      let r = fixed_units units places decimals in
      decimals ≤ 4
      → rounded_value amount decimals ≡ finite negative units places
      → ltb units (10 ^ 21 * 10 ^ places) ≡ true
      → format_currency (some amount) settings
        ≡ returned (
            with_symbol settings.currency_symbol_position
              (get_currency_symbol settings.currency_code)
              (join_parts settings decimals
                (integer_part (negative && ltb 0 units) r decimals)
                (decimal_part r decimals)))
unfolding format_currency format_number to_fixed fixed_parts rounded_value times over math_round
formatted settings nan negative units places few h small = absurd (cc h)
formatted settings (infinite b) negative units places few h small =
    rw (h, few_decimals settings.price_decimal_places few, small) refl
formatted settings (finite b u p) negative units places few h small =
    rw (h, few_decimals settings.price_decimal_places few, small) refl

-- Where an amount is rounded to a double below 10 ^ 21, its text under offered settings is parsed as the double
-- nearest to the decimal that the text shows, which is the nearest to the rounded one with the decimals that are
-- chosen, if the two separators differ; if they are the same, the decimal point of that decimal is left out.
pub parse_formatted_number-format_currency :
    (settings : FormatSettings) (amount : Number) (negative : Bool) (units places : ℕ)
    → IsOffered settings
    → rounded_value amount settings.price_decimal_places ≡ finite negative units places
    → ltb units (10 ^ 21 * 10 ^ places) ≡ true
    → let decimals = settings.price_decimal_places in
      (formatted' : Text) × (format_currency (some amount) settings ≡ returned formatted')
      × (parse_formatted_number formatted' settings
          ≡ or_zero (
              to_double (
                finite (negative && ltb 0 units) (fixed_units units places decimals) (
                  if text_eq settings.thousands_separator settings.decimal_separator
                  then 0
                  else decimals))))
unfolding parse_float
parse_formatted_number-format_currency settings amount negative units places offered e small =
    let decimals = settings.price_decimal_places in
    let r = fixed_units units places decimals in
    let below = negative && ltb 0 units in
    let (t, t_is, t_mark) = mark_of settings.thousands_separator (
      offers-all is_separator thousands_options settings.thousands_separator refl
        offered.thousands) in
    let (q, q_is, q_mark) =
      mark_of settings.decimal_separator
        (offers-all is_separator decimal_options settings.decimal_separator refl offered.decimal) in
    (
      _,
      formatted settings amount negative units places offered.decimals e small,
      parse-with_symbol settings settings.currency_symbol_position
          (written settings t q t_is q_is t_mark q_mark below r decimals)
          (offered_symbol settings.currency_code offered.currency)
          (written-starts settings t q t_is q_is t_mark q_mark below r decimals)
          (written-ends settings t q t_is q_is t_mark q_mark below r decimals)
          (written-amount settings t q t_is q_is t_mark q_mark below r decimals)
          (ap (λ y. or_zero (to_double y))
            (read_settings settings t q t_is q_is t_mark q_mark below r decimals)),
    )
