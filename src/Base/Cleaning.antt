-- ===== src/Base/Cleaning.antt =====
-- Laws of the methods of Characters: a text without a character, its first occurrence, and the white
-- space at the ends.
use Prim.Native.Nat.{ℕ}
use mathlib.Core.Path.{◌≡◌, refl, sym, ap, ◌∙◌}
use mathlib.Core.Bool.{Bool, true, false, not}
use mathlib.Core.List.{[], ◌∷◌, ◌++◌, append-nil, reverse, reverse-append, reverse-reverse}
use mathlib.Core.Option.{some}
use native.Mathlib.Omega.{arith}
use harmony_saas_multitenanc.Base.Tests.{nat_eq, if◌then◌else◌}
use harmony_saas_multitenanc.Base.Lists.{all}
use harmony_saas_multitenanc.Base.Characters.{
  Text, is_space, trim_start, trim, strip_prefix, replace_first, remove_from, remove_all,
}

abbrev pub lacks : ℕ → Text → Bool
lacks p = all (λ c. not (nat_eq p c))

abbrev pub without : ℕ → Text → Text
without p [] = []
without p (c ∷ s) = if nat_eq p c then without p s else c ∷ without p s

pub remove_all-without : (p : ℕ) (s : Text) → remove_all (p ∷ []) s ≡ without p s
unfolding remove_all remove_from strip_prefix
remove_all-without p [] = refl
remove_all-without p (c ∷ s) = ground (arith, remove_all-without p s)

pub without-append : (p : ℕ) (s t : Text) → without p (s ++ t) ≡ without p s ++ without p t
without-append p [] t = refl
without-append p (c ∷ s) t = ground (arith, without-append p s t)

pub without-lacks : (p : ℕ) (s : Text) → lacks p s ≡ true → without p s ≡ s
without-lacks p [] h = refl
without-lacks p (c ∷ s) h = ground (arith, without-lacks p s)

pub lacks-append :
    (p : ℕ) (s t : Text) → lacks p s ≡ true → lacks p t ≡ true → lacks p (s ++ t) ≡ true
lacks-append p [] t h k = k
lacks-append p (c ∷ s) t h k = ground (arith, lacks-append p s t)

-- Only the first occurrence is replaced.
pub replace_first-found :
    (p : ℕ) (by s t : Text)
    → lacks p s ≡ true
    → replace_first (p ∷ []) by (s ++ p ∷ t) ≡ s ++ (by ++ t)
unfolding replace_first strip_prefix
replace_first-found p by [] t h = ground arith
replace_first-found p by (c ∷ s) t h = ground (arith, replace_first-found p by s t)

pub replace_first-lacks :
    (p : ℕ) (ps by s : Text) → lacks p s ≡ true → replace_first (p ∷ ps) by s ≡ s
unfolding replace_first strip_prefix
replace_first-lacks p ps by [] h = refl
replace_first-lacks p ps by (c ∷ s) h = ground (arith, replace_first-lacks p ps by s)

strip_prefix_self : (s t : Text) → strip_prefix s (s ++ t) ≡ some t
unfolding strip_prefix
strip_prefix_self [] t = refl
strip_prefix_self (c ∷ s) t = ground (arith, strip_prefix_self s t)

pub replace_first-front : (p : ℕ) (ps t : Text) → replace_first (p ∷ ps) [] ((p ∷ ps) ++ t) ≡ t
unfolding replace_first
replace_first-front p ps t = ground (arith, strip_prefix_self (p ∷ ps) t)

pub replace_first-back :
    (p : ℕ) (ps s : Text) → lacks p s ≡ true → replace_first (p ∷ ps) [] (s ++ (p ∷ ps)) ≡ s
unfolding replace_first strip_prefix
replace_first-back p ps [] h =
    let e : strip_prefix (p ∷ ps) (p ∷ ps) ≡ some [] =
      ap (strip_prefix (p ∷ ps)) (sym (append-nil (p ∷ ps))) ∙ strip_prefix_self (p ∷ ps) [] in
    ground arith
replace_first-back p ps (c ∷ s) h = ground (arith, replace_first-back p ps s)

-- A text whose first character is not white space.
abbrev pub starts_plain : Text → Bool
starts_plain [] = false
starts_plain (c ∷ s) = not (is_space c)

abbrev pub ends_plain : Text → Bool
ends_plain s = starts_plain (reverse s)

pub trim_start-plain : (s : Text) → starts_plain s ≡ true → trim_start s ≡ s
unfolding trim_start
trim_start-plain [] h = refl
trim_start-plain (c ∷ s) h = ground arith

pub trim-plain : (s : Text) → starts_plain s ≡ true → ends_plain s ≡ true → trim s ≡ s
unfolding trim
trim-plain s h k = rw (trim_start-plain s h, trim_start-plain (reverse s) k) (reverse-reverse s)

pub starts_plain-append : (s t : Text) → starts_plain s ≡ true → starts_plain (s ++ t) ≡ true
starts_plain-append [] t h = ground arith
starts_plain-append (c ∷ s) t h = h

pub ends_plain-append : (s t : Text) → ends_plain t ≡ true → ends_plain (s ++ t) ≡ true
ends_plain-append s t h = rw (reverse-append s t) (starts_plain-append (reverse t) (reverse s) h)

pub trim-space : (s : Text) → trim (b' ' ∷ s) ≡ trim s
unfolding trim trim_start is_space
trim-space s = refl

pub trim-trailing :
    (s : Text) → starts_plain s ≡ true → ends_plain s ≡ true → trim (s ++ b' ' ∷ []) ≡ s
unfolding trim
trim-trailing s h k =
    rw
      (
        trim_start-plain (s ++ b' ' ∷ []) (starts_plain-append s (b' ' ∷ []) h),
        reverse-append s (b' ' ∷ []),
      )
      (unfold trim_start is_space in
        ap reverse (trim_start-plain (reverse s) k) ∙ reverse-reverse s)
