-- ===== src/Base/Texts.antt =====
-- Membership in a list of texts, as `Set.has` and `Array.includes` test it.
use Prim.Native.String.{String}
use mathlib.Core.Path.{◌≡◌, refl}
use mathlib.Core.Bool.{Bool, true, false, not, ◌&&◌, ◌||◌}
use mathlib.Core.List.{List, [], ◌∷◌, ◌++◌}
use native.Mathlib.Omega.{arith}
use text.Mathlib.Text.{◌==◌}
use text.Mathlib.TextEquality.{eq_iff}
use harmony_saas_multitenanc.Base.Lists.{all}
use harmony_saas_multitenanc.Base.Tests.{Bool-ext}

unfoldable pub contains : List String → String → Bool
contains [] a = false
contains (x ∷ xs) a = x == a || contains xs a

-- A property that every listed text has, holds of a member.
pub all-contains :
    (p : String → Bool) (xs : List String) (a : String)
    → all p xs ≡ true
    → contains xs a ≡ true
    → p a ≡ true
unfolding contains
all-contains p [] a h m = ground arith
all-contains p (x ∷ xs) a h m = ground (arith, eq_iff x a, all-contains p xs a)

-- Inclusion, checked text by text.
pub contains-subset :
    (xs ys : List String) (a : String)
    → all (contains ys) xs ≡ true
    → contains xs a ≡ true
    → contains ys a ≡ true
contains-subset xs ys a h m = all-contains (contains ys) xs a h m

pub contains-append :
    (xs ys : List String) (a : String) → contains (xs ++ ys) a ≡ (contains xs a || contains ys a)
unfolding contains
contains-append [] ys a = refl
contains-append (x ∷ xs) ys a = ground (arith, contains-append xs ys a)

-- A list of the texts of another that pass a test, checked text by text.
pub contains-filter :
    (xs ys : List String) (p : String → Bool) (a : String)
    → all (λ q. contains ys q && p q) xs ≡ true
    → all (λ q. not (p q) || contains xs q) ys ≡ true
    → contains xs a ≡ (contains ys a && p a)
contains-filter xs ys p a sound complete =
    Bool-ext _ _ (all-contains (λ q. contains ys q && p q) xs a sound)
      (λ h. let e = all-contains (λ q. not (p q) || contains xs q) ys a complete in ground arith)

-- Two lists with the same texts.
pub contains-ext :
    (xs ys : List String) (a : String)
    → all (contains ys) xs ≡ true
    → all (contains xs) ys ≡ true
    → contains xs a ≡ contains ys a
contains-ext xs ys a h k = Bool-ext _ _ (contains-subset xs ys a h) (contains-subset ys xs a k)
