-- ===== src/Format/Grouping.antt =====
-- The thousands separators of a number: what they are made of, and what is left without them.
use harmony_saas_multitenanc.Base.{
  ℕ, ◌%◌, ◌<◌, Bool, true, false, ◌&&◌, [], ◌∷◌, ◌++◌, ◌≡◌, refl, ◌∙◌, ap, arith, length, all,
  nat_eq, ◌⊎◌, inl, inr, Bool-cases,
}
use harmony_saas_multitenanc.Base.Characters.{Text, is_digit, is_space}
use harmony_saas_multitenanc.Base.Cleaning.{without, starts_plain, ends_plain, ends_plain-append}
use harmony_saas_multitenanc.Numerals.{leading_digits}
use harmony_saas_multitenanc.Numerals.Reading.{is_numeral_char}
use harmony_saas_multitenanc.Format.{insert_separators}

-- Without the separators the text is what it was without them.
pub without-insert_separators :
    (p : ℕ) (word : Bool) (s : Text) → without p (insert_separators (p ∷ []) word s) ≡ without p s
unfolding insert_separators
without-insert_separators p word [] = refl
without-insert_separators p word (c ∷ s) =
    ground (arith, without-insert_separators p (is_digit c) s)

pub insert_separators-all :
    (q : ℕ → Bool) (p : ℕ) (word : Bool) (s : Text)
    → q p ≡ true
    → all q s ≡ true
    → all q (insert_separators (p ∷ []) word s) ≡ true
unfolding insert_separators
insert_separators-all q p word [] h k = refl
insert_separators-all q p word (c ∷ s) h k =
    ground (arith, insert_separators-all q p (is_digit c) s)

pub insert_separators-starts :
    (separator s : Text)
    → all is_numeral_char s ≡ true
    → 0 < length s
    → starts_plain (insert_separators separator false s) ≡ true
unfolding insert_separators is_space
insert_separators-starts separator [] h l = absurd (omega arith)
insert_separators-starts separator (c ∷ s) h l = ground arith

pub ends_plain-numeral :
    (s : Text) → all is_numeral_char s ≡ true → 0 < length s → ends_plain s ≡ true
unfolding is_space
ends_plain-numeral [] h l = absurd (omega arith)
ends_plain-numeral (c ∷ []) h l = ground arith
ends_plain-numeral (c ∷ d ∷ s) h l =
    ends_plain-append (c ∷ []) (d ∷ s) (ends_plain-numeral (d ∷ s) (ground arith) (omega arith))

-- Of a single character, and behind one that has others after it.
insert_one :
    (separator : Text) (word : Bool) (c : ℕ) → insert_separators separator word (c ∷ []) ≡ c ∷ []
unfolding insert_separators leading_digits
insert_one separator word c = ground arith

insert_cases :
    (separator : Text) (word : Bool) (c : ℕ) (s : Text)
    → let rest = c ∷ insert_separators separator (is_digit c) s in
      (insert_separators separator word (c ∷ s) ≡ separator ++ rest)
      ⊎ (insert_separators separator word (c ∷ s) ≡ rest)
unfolding insert_separators
insert_cases separator word c s =
    elim (Bool-cases (word && is_digit c && nat_eq (length (leading_digits (c ∷ s)).0 % 3) 0)) [
      | inl e ↦ inl (rw e refl)
      | inr e ↦ inr (rw e refl)
    ]

pub insert_separators-ends :
    (separator : Text) (word : Bool) (s : Text)
    → all is_numeral_char s ≡ true
    → 0 < length s
    → ends_plain (insert_separators separator word s) ≡ true
insert_separators-ends separator word [] h l = absurd (omega arith)
insert_separators-ends separator word (c ∷ []) h l =
    ap ends_plain (insert_one separator word c) ∙ ends_plain-numeral (c ∷ []) h l
insert_separators-ends separator word (c ∷ d ∷ s) h l =
    let later =
      insert_separators-ends separator (is_digit c) (d ∷ s) (ground arith) (omega arith) in
    let rest = c ∷ insert_separators separator (is_digit c) (d ∷ s) in
    let plain : ends_plain rest ≡ true =
      ends_plain-append (c ∷ []) (insert_separators separator (is_digit c) (d ∷ s)) later in
    elim (insert_cases separator word c (d ∷ s)) [
      | inl e ↦ ap ends_plain e ∙ ends_plain-append separator rest plain
      | inr e ↦ ap ends_plain e ∙ plain
    ]
