-- ===== src/Format/Unwrapping.antt =====
-- What is left of a formatted amount without its symbol and its separators.
use mathlib.Core.List.{append_assoc}
use harmony_saas_multitenanc.Base.{
  ℕ, ◌<◌, Bool, true, false, ◌||◌, [], ◌∷◌, ◌++◌, ◌≡◌, refl, ◌∙◌, ap, sym, arith, length, all,
  nat_eq,
}
use harmony_saas_multitenanc.Base.Characters.{
  Text, codes, is_space, trim, replace_first, remove_all,
}
use harmony_saas_multitenanc.Base.Cleaning.{
  lacks, without, starts_plain, ends_plain, ends_plain-append, trim-plain, trim-space,
  trim-trailing, starts_plain-append, remove_all-without, without-append, without-lacks,
  lacks-append, replace_first-found, replace_first-lacks, replace_first-front, replace_first-back,
}
use harmony_saas_multitenanc.Numerals.Reading.{is_numeral_char}
use harmony_saas_multitenanc.Format.{insert_separators}
use harmony_saas_multitenanc.Format.Grouping.{without-insert_separators, insert_separators-all}

abbrev pub is_mark : ℕ → Bool
is_mark c = nat_eq c b'.' || nat_eq c b',' || nat_eq c b' '

-- What a number with separators is made of.
abbrev pub is_amount_char : ℕ → Bool
is_amount_char c = is_numeral_char c || is_mark c

pub weaken : (s : Text) → all is_numeral_char s ≡ true → all is_amount_char s ≡ true
weaken [] h = refl
weaken (c ∷ s) h = ground (arith, weaken s)

mark-lacks : (p : ℕ) (s : Text) → is_mark p ≡ true → all is_numeral_char s ≡ true → lacks p s ≡ true
mark-lacks p [] m h = refl
mark-lacks p (c ∷ s) m h = ground (arith, mark-lacks p s)

other-lacks :
    (p : ℕ) (s : Text) → is_amount_char p ≡ false → all is_amount_char s ≡ true → lacks p s ≡ true
other-lacks p [] m h = refl
other-lacks p (c ∷ s) m h = ground (arith, other-lacks p s)

space-lacks : (p : ℕ) → is_amount_char p ≡ false → lacks p (b' ' ∷ []) ≡ true
space-lacks p m = ground arith

abbrev pub grouped : ℕ → Text → Text
grouped t s = insert_separators (t ∷ []) false s

-- The thousands separator t, the decimal separator q, and the two parts of a number.
module _ (t q : ℕ) (s d : Text) (t_mark : is_mark t ≡ true) (q_mark : is_mark q ≡ true)
    (whole : all is_numeral_char s ≡ true) (part : all is_numeral_char d ≡ true)
    (some_digit : 0 < length s) where
  pub grouped-chars : all is_amount_char (grouped t s) ≡ true
  grouped-chars = insert_separators-all is_amount_char t false s (ground arith) (weaken s whole)

  ungrouped : without t (grouped t s) ≡ s
  ungrouped = without-insert_separators t false s ∙ without-lacks t s (mark-lacks t s t_mark whole)

  pub bare_whole : replace_first (q ∷ []) (codes ".") (remove_all (t ∷ []) (grouped t s)) ≡ s
  bare_whole =
      rw (remove_all-without t (grouped t s), ungrouped)
        (replace_first-lacks q [] (codes ".") s (mark-lacks q s q_mark whole))

  pub bare_parts :
      nat_eq t q ≡ false
      → replace_first (q ∷ []) (codes ".") (remove_all (t ∷ []) ((grouped t s) ++ q ∷ d))
        ≡ s ++ b'.' ∷ d
  bare_parts differ =
      rw
        (
          remove_all-without t ((grouped t s) ++ q ∷ d),
          without-append t (grouped t s) (q ∷ d),
          ungrouped,
          differ,
          without-lacks t d (mark-lacks t d t_mark part),
        )
        (replace_first-found q (codes ".") s d (mark-lacks q s q_mark whole))

  pub bare_joined :
      nat_eq t q ≡ true
      → replace_first (q ∷ []) (codes ".") (remove_all (t ∷ []) ((grouped t s) ++ q ∷ d)) ≡ s ++ d
  bare_joined same =
      rw
        (
          remove_all-without t ((grouped t s) ++ q ∷ d),
          without-append t (grouped t s) (q ∷ d),
          ungrouped,
          same,
          without-lacks t d (mark-lacks t d t_mark part),
        )
        (replace_first-lacks q [] (codes ".") (s ++ d)
          (lacks-append q s d (mark-lacks q s q_mark whole) (mark-lacks q d q_mark part)))

-- A number with a symbol, a space between them, in either order: the symbol is taken off again. It begins
-- with no character of an amount and ends with no white space.
module _ (p : ℕ) (ps n : Text) (apart : is_amount_char p ≡ false) (front : is_space p ≡ false)
    (back : ends_plain (p ∷ ps) ≡ true) (first : starts_plain n ≡ true) (last : ends_plain n ≡ true)
    (amount : all is_amount_char n ≡ true) where
  pub unwrapped-before : trim (replace_first (p ∷ ps) [] (trim ((p ∷ ps) ++ (b' ' ∷ n)))) ≡ n
  unwrapped-before =
      let whole = (p ∷ ps) ++ (b' ' ∷ n) in
      let ends : ends_plain whole ≡ true =
        ends_plain-append (p ∷ ps) (b' ' ∷ n) (ends_plain-append (b' ' ∷ []) n last) in
      ap (λ s. trim (replace_first (p ∷ ps) [] s)) (trim-plain whole (rw front refl) ends)
      ∙ ap trim (replace_first-front p ps (b' ' ∷ n))
      ∙ trim-space n
      ∙ trim-plain n first last

  pub unwrapped-after : trim (replace_first (p ∷ ps) [] (trim (n ++ (b' ' ∷ p ∷ ps)))) ≡ n
  unwrapped-after =
      let spaced = n ++ b' ' ∷ [] in
      let starts : starts_plain (spaced ++ (p ∷ ps)) ≡ true =
        starts_plain-append spaced (p ∷ ps) (starts_plain-append n (b' ' ∷ []) first) in
      let missing : lacks p spaced ≡ true =
        lacks-append p n (b' ' ∷ []) (other-lacks p n apart amount) (space-lacks p apart) in
      ap (λ s. trim (replace_first (p ∷ ps) [] (trim s)))
        (sym (append_assoc n (b' ' ∷ []) (p ∷ ps)))
      ∙ ap (λ s. trim (replace_first (p ∷ ps) [] s))
          (trim-plain (spaced ++ (p ∷ ps)) starts (ends_plain-append spaced (p ∷ ps) back))
      ∙ ap trim (replace_first-back p ps spaced missing)
      ∙ trim-trailing n first last
