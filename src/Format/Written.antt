-- ===== src/Format/Written.antt =====
-- A number between separators: what it looks like, and what is read of it.
use mathlib.Core.List.{append-nil}
use harmony_saas_multitenanc.Base.{
  ℕ, zero, suc, Bool, true, false, [], ◌∷◌, ◌++◌, ◌≡◌, inl, inr, refl, ◌∙◌, ap, sym, arith, ltb,
  all, all-append, nat_eq, if◌then◌else◌, Bool-cases,
}
use harmony_saas_multitenanc.Base.Characters.{Text, codes, replace_first, remove_all, text_eq}
use harmony_saas_multitenanc.Base.Cleaning.{
  starts_plain, ends_plain, ends_plain-append, starts_plain-append,
}
use harmony_saas_multitenanc.Numerals.{finite, integer_part, decimal_part, read_decimal}
use harmony_saas_multitenanc.Numerals.Reading.{
  read_point, read_joined, integer_part-numeral, decimal_part-numeral, length-integer_part,
  length-decimal_part,
}
use harmony_saas_multitenanc.Format.{FormatSettings, insert_separators, join_parts}
use harmony_saas_multitenanc.Format.Grouping.{
  insert_separators-all, insert_separators-starts, insert_separators-ends, ends_plain-numeral,
}
use harmony_saas_multitenanc.Format.Unwrapping.{
  is_mark, is_amount_char, weaken, grouped, bare_whole, bare_parts, bare_joined,
}

-- A number r / 10 ^ d between the separators t and q: what it looks like, and what is read of it.
module _ (settings : FormatSettings) (t q : ℕ) (t_is : settings.thousands_separator ≡ t ∷ [])
    (q_is : settings.decimal_separator ≡ q ∷ []) (t_mark : is_mark t ≡ true)
    (q_mark : is_mark q ≡ true) (negative : Bool) (r : ℕ) where
  abbrev pub written : ℕ → Text
  written d = join_parts settings d (integer_part negative r d) (decimal_part r d)

  written-whole : written zero ≡ grouped t (integer_part negative r zero)
  unfolding join_parts
  written-whole = ap (λ s. insert_separators s false (integer_part negative r zero)) t_is

  written-parts :
      (d : ℕ)
      → written (suc d)
        ≡ grouped t (integer_part negative r (suc d)) ++ (q ∷ decimal_part r (suc d))
  unfolding join_parts
  written-parts d =
      let positive : ltb 0 (suc d) ≡ true = ground arith in
      rw (length-decimal_part r (suc d), q_is, positive)
        (ap
          (λ s.
            insert_separators s false (integer_part negative r (suc d))
            ++ (q ∷ decimal_part r (suc d)))
          t_is)

  stripped : Text → Text
  stripped n = replace_first (q ∷ []) (codes ".") (remove_all (t ∷ []) n)

  -- The decimals count where the two separators differ.
  abbrev places_read : ℕ → ℕ
  places_read d = if nat_eq t q then 0 else d

  no_decimals : decimal_part r zero ≡ []
  unfolding decimal_part
  no_decimals = refl

  no_places : zero ≡ places_read zero
  no_places = ground arith

  read_back : (d : ℕ) → read_decimal (stripped (written d)) ≡ finite negative r (places_read d)
  unfolding stripped
  read_back zero =
      ap (λ n. read_decimal (stripped n)) written-whole
      ∙ ap read_decimal (
          bare_whole t q (integer_part negative r zero) [] t_mark q_mark
            (integer_part-numeral negative r zero) refl (length-integer_part negative r zero))
      ∙ ap read_decimal (sym (append-nil (integer_part negative r zero)))
      ∙ ap (λ f. read_decimal (integer_part negative r zero ++ f)) (sym no_decimals)
      ∙ read_joined negative r zero
      ∙ ap (finite negative r) no_places
  read_back (suc d) =
      let whole = integer_part-numeral negative r (suc d) in
      let part = decimal_part-numeral r (suc d) in
      let digit = length-integer_part negative r (suc d) in
      let i = integer_part negative r (suc d) in
      let f = decimal_part r (suc d) in
      ap (λ n. read_decimal (stripped n)) (written-parts d) ∙ elim (Bool-cases (nat_eq t q)) [
        | inl same ↦
            ap read_decimal (bare_joined t q i f t_mark q_mark whole part digit same)
            ∙ rw same (read_joined negative r (suc d))
        | inr differ ↦
            ap read_decimal (bare_parts t q i f t_mark q_mark whole part digit differ)
            ∙ rw differ (read_point negative r (suc d))
      ]

  same_separators : nat_eq t q ≡ text_eq settings.thousands_separator settings.decimal_separator
  unfolding text_eq
  same_separators = rw (t_is, q_is) (ground arith)

  pub read_settings :
      (d : ℕ)
      → read_decimal (
          replace_first settings.decimal_separator
            (codes ".")
            (remove_all settings.thousands_separator (written d)))
        ≡ finite negative r
            (if text_eq settings.thousands_separator settings.decimal_separator then 0 else d)
  unfolding stripped
  read_settings d =
      ap
        (λ s.
          read_decimal
            (replace_first s (codes ".") (remove_all settings.thousands_separator (written d))))
        q_is
      ∙ ap (λ s. read_decimal (replace_first (q ∷ []) (codes ".") (remove_all s (written d)))) t_is
      ∙ read_back d
      ∙ ap (λ (b : Bool). finite negative r (if b then 0 else d)) same_separators

  pub written-starts : (d : ℕ) → starts_plain (written d) ≡ true
  written-starts zero =
      ap starts_plain written-whole
      ∙ insert_separators-starts (t ∷ []) (integer_part negative r zero)
          (integer_part-numeral negative r zero) (length-integer_part negative r zero)
  written-starts (suc d) =
      let i = integer_part negative r (suc d) in
      ap starts_plain (written-parts d)
      ∙ starts_plain-append (grouped t i) (q ∷ decimal_part r (suc d)) (
          insert_separators-starts (t ∷ []) i (integer_part-numeral negative r (suc d))
            (length-integer_part negative r (suc d)))

  pub written-ends : (d : ℕ) → ends_plain (written d) ≡ true
  written-ends zero =
      ap ends_plain written-whole
      ∙ insert_separators-ends (t ∷ []) false (integer_part negative r zero)
          (integer_part-numeral negative r zero) (length-integer_part negative r zero)
  written-ends (suc d) =
      let f = decimal_part r (suc d) in
      ap ends_plain (written-parts d)
      ∙ ends_plain-append (grouped t (integer_part negative r (suc d))) (q ∷ f) (
          ends_plain-append (q ∷ []) f (
            ends_plain-numeral f (decimal_part-numeral r (suc d))
              (omega (arith, length-decimal_part r (suc d)))))

  pub written-amount : (d : ℕ) → all is_amount_char (written d) ≡ true
  written-amount zero =
      ap (all is_amount_char) written-whole
      ∙ insert_separators-all is_amount_char t false (integer_part negative r zero) (ground arith)
          (weaken (integer_part negative r zero) (integer_part-numeral negative r zero))
  written-amount (suc d) =
      let i = integer_part negative r (suc d) in
      let f = decimal_part r (suc d) in
      ap (all is_amount_char) (written-parts d)
      ∙ all-append is_amount_char (grouped t i) (q ∷ f)
          (insert_separators-all is_amount_char t false i (ground arith)
            (weaken i (integer_part-numeral negative r (suc d))))
          (all-append is_amount_char (q ∷ []) f (ground arith)
            (weaken f (decimal_part-numeral r (suc d))))
