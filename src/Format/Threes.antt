-- ===== src/Format/Threes.antt =====
-- The thousands separators stand between groups of three digits, from the right.
use harmony_saas_multitenanc.Base.{
  ℕ, ◌%◌, ◌<◌, ◌≤◌, Bool, true, false, ◌&&◌, ◌||◌, [], ◌∷◌, ◌++◌, ◌≡◌, refl, ◌∙◌, ap, arith, length,
  List, length-append, ltb, all, all-append, nat_eq, if◌then◌else◌,
}
use mathlib.Core.List.{append_assoc}
use harmony_saas_multitenanc.Base.Characters.{Text, is_digit}
use harmony_saas_multitenanc.Numerals.Reading.{AllDigits, leading_digits-all}
use harmony_saas_multitenanc.Format.{insert_separators}

module _ (separator : Text) where
  -- Among digits only, the number of them that are left decides.
  insert_digits :
      (word : Bool) (c : ℕ) (s : Text)
      → AllDigits (c ∷ s)
      → insert_separators separator word (c ∷ s) ≡ (
          if word && nat_eq (length (c ∷ s) % 3) 0
          then separator ++ (c ∷ insert_separators separator true s)
          else c ∷ insert_separators separator true s)
  unfolding insert_separators
  insert_digits word c s h = ground (arith, leading_digits-all s)

  -- Three digits behind others are a group of their own.
  insert_behind :
      (word : Bool) (s : Text) (c d e : ℕ)
      → AllDigits s
      → AllDigits (c ∷ d ∷ e ∷ [])
      → (word || ltb 0 (length s)) ≡ true
      → insert_separators separator word (s ++ (c ∷ d ∷ e ∷ []))
        ≡ insert_separators separator word s ++ (separator ++ (c ∷ d ∷ e ∷ []))
  unfolding insert_separators
  insert_behind word [] c d e h k f =
      let first = insert_digits word c (d ∷ e ∷ []) k in
      let second = insert_digits true d (e ∷ []) (ground arith) in
      let third = insert_digits true e [] (ground arith) in ground arith
  insert_behind word (x ∷ s) c d e h k f =
      let three = c ∷ d ∷ e ∷ [] in
      let later = insert_behind true s c d e (ground arith) k refl in
      let i = insert_separators separator true s in
      ground (
        arith,
        insert_digits word x (s ++ three),
        all-append is_digit s three,
        insert_digits word x s,
        length-append s three,
        append_assoc separator (x ∷ i) (separator ++ three),
      )

  insert_short : (s : Text) → AllDigits s → length s ≤ 3 → insert_separators separator false s ≡ s
  unfolding insert_separators
  insert_short [] h l = refl
  insert_short (a ∷ []) h l = ground (arith, insert_digits false a [])
  insert_short (a ∷ b ∷ []) h l =
      ground (arith, insert_digits false a (b ∷ []), insert_digits true b [])
  insert_short (a ∷ b ∷ c ∷ []) h l = ground (
    arith,
    insert_digits false a (b ∷ c ∷ []),
    insert_digits true b (c ∷ []),
    insert_digits true c [],
  )
  insert_short (a ∷ b ∷ c ∷ d ∷ s) h l = absurd (omega arith)

-- Three digits.
abbrev pub Group : Type 0
Group = ℕ × ℕ × ℕ

abbrev pub three_of : Group → Text
three_of (c, d, e) = c ∷ d ∷ e ∷ []

-- The first digits and the groups behind them, each behind a separator.
abbrev pub joined : Text → Text → List Group → Text
joined separator front [] = front
joined separator front (g ∷ gs) = joined separator (front ++ (separator ++ three_of g)) gs

insert-joined :
    (separator front shown : Text) (gs : List Group)
    → AllDigits front
    → 0 < length front
    → all (λ g. all is_digit (three_of g)) gs ≡ true
    → insert_separators separator false front ≡ shown
    → insert_separators separator false (joined [] front gs) ≡ joined separator shown gs
insert-joined separator front shown [] h l k e = e
insert-joined separator front shown ((a, b, c) ∷ gs) h l k e =
    let three = a ∷ b ∷ c ∷ [] in
    insert-joined separator (front ++ three) (shown ++ (separator ++ three)) gs
      (all-append is_digit front three h (ground arith)) (omega (arith, length-append front three))
      (ground arith)
      (insert_behind separator false front a b c h (ground arith) (ground arith)
        ∙ ap (λ s. s ++ (separator ++ three)) e)

-- Of digits, the first one, two or three stand before the first separator, and three behind each.
pub insert_separators-threes :
    (separator front : Text) (gs : List Group)
    → AllDigits front
    → 0 < length front
    → length front ≤ 3
    → all (λ g. all is_digit (three_of g)) gs ≡ true
    → insert_separators separator false (joined [] front gs) ≡ joined separator front gs
insert_separators-threes separator front gs h l m k =
    insert-joined separator front front gs h l k (insert_short separator front h m)
