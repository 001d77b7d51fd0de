-- ===== src/Format/Offered.antt =====
-- The settings that the pages offer, and the symbols of their currencies.
use harmony_saas_multitenanc.Base.{
  ℕ, ◌≤◌, Bool, true, false, not, ◌||◌, List, [], ◌∷◌, ◌≡◌, inl, inr, refl, ◌∙◌, ap, sym, arith,
  all, Bool-cases,
}
use harmony_saas_multitenanc.Base.Characters.{Text, is_space, text_eq}
use harmony_saas_multitenanc.Base.Cleaning.{starts_plain, ends_plain}
use harmony_saas_multitenanc.Format.{
  FormatSettings, currency_options, decimal_options, thousands_options, get_currency_symbol,
}
use harmony_saas_multitenanc.Format.Unwrapping.{is_mark, is_amount_char}

-- A text that the pages offer.
abbrev pub offers : List Text → Text → Bool
offers [] s = false
offers (o ∷ os) s = text_eq o s || offers os s

-- The values of the settings of amounts are offered by the pages.
pub record IsOffered (settings : FormatSettings) : Type 0 where
  pub currency : offers currency_options settings.currency_code ≡ true
  pub decimal : offers decimal_options settings.decimal_separator ≡ true
  pub thousands : offers thousands_options settings.thousands_separator ≡ true
  pub decimals : settings.price_decimal_places ≤ 4

pub text_eq→eq : (s t : Text) → text_eq s t ≡ true → s ≡ t
unfolding text_eq
text_eq→eq [] [] h = refl
text_eq→eq [] (c ∷ t) h = absurd (cc h)
text_eq→eq (c ∷ s) [] h = absurd (cc h)
text_eq→eq (c ∷ s) (d ∷ t) h = ground (arith, text_eq→eq s t)

pub offers-all :
    (p : Text → Bool) (options : List Text) (s : Text)
    → all p options ≡ true
    → offers options s ≡ true
    → p s ≡ true
offers-all p [] s h m = absurd (cc m)
offers-all p (o ∷ os) s h m = elim (Bool-cases (text_eq o s)) [
  | inl e ↦ ap p (sym (text_eq→eq o s e)) ∙ ground arith
  | inr e ↦ offers-all p os s (ground arith) (ground arith)
]

-- A separator that is one mark.
abbrev pub is_separator : Text → Bool
is_separator [] = false
is_separator (c ∷ []) = is_mark c
is_separator (c ∷ d ∷ s) = false

pub mark_of : (s : Text) → is_separator s ≡ true → (c : ℕ) × (s ≡ c ∷ []) × (is_mark c ≡ true)
mark_of [] h = absurd (cc h)
mark_of (c ∷ []) h = (c, refl, h)
mark_of (c ∷ d ∷ s) h = absurd (cc h)

-- A symbol that begins with no character of an amount and ends with no white space.
abbrev is_apart : Text → Bool
is_apart [] = false
is_apart (p ∷ ps) = not (is_amount_char p)

abbrev pub PlainSymbol : Text → Type 0
PlainSymbol s =
    (p : ℕ) × (ps : Text) × (s ≡ p ∷ ps)
    × (is_amount_char p ≡ false)
    × (is_space p ≡ false)
    × (ends_plain (p ∷ ps) ≡ true)

plain_symbol :
    (s : Text) → is_apart s ≡ true → starts_plain s ≡ true → ends_plain s ≡ true → PlainSymbol s
plain_symbol [] h k l = absurd (cc h)
plain_symbol (p ∷ ps) h k l = (p, ps, refl, ground arith, ground arith, l)

-- Each symbol of the currencies that are offered is one.
pub offered_symbol :
    (code : Text) → offers currency_options code ≡ true → PlainSymbol (get_currency_symbol code)
unfolding get_currency_symbol is_space
offered_symbol code h =
    plain_symbol (get_currency_symbol code)
      (offers-all (λ c. is_apart (get_currency_symbol c)) currency_options code refl h)
      (offers-all (λ c. starts_plain (get_currency_symbol c)) currency_options code refl h)
      (offers-all (λ c. ends_plain (get_currency_symbol c)) currency_options code refl h)
