-- ===== src/Base/Prefixes.antt =====
-- Beginnings of a text.
use Prim.Native.String
use Prim.Native.String.append
use Prim.Native.String.{String}
use mathlib.Core.Path.{◌≡◌, refl, sym, ◌∙◌, ap}
use mathlib.Core.Logic.{◌⊎◌, inl, inr}
use mathlib.Core.Bool.{true, ◌||◌}
use native.Mathlib.Omega.{arith}
use text.Mathlib.Text.{starts_with}
use text.Mathlib.TextBridge.{IsPrefix}
use text.Mathlib.TextEquality.{starts_with_iff}
use text.Mathlib.TextPositions.{starts_with_of_prefix}
use text.Mathlib.TextLemmas.{append_assoc, append-nil}

-- Of two beginnings of a text one is a beginning of the other.
prefix_cases : (a b u v : String) → String.◌++◌ a u ≡ String.◌++◌ b v → IsPrefix a b ⊎ IsPrefix b a
prefix_cases String.[] b u v h = inl (b, append.nil b)
prefix_cases (String.◌∷◌ c a) String.[] u v h = inr (_, append.nil _)
prefix_cases (String.◌∷◌ c a) (String.◌∷◌ d b) u v h =
    let k : String.◌∷◌ c (String.◌++◌ a u) ≡ String.◌∷◌ d (String.◌++◌ b v) =
      sym (append.cons c a u) ∙ h ∙ append.cons d b v in
    let e : c ≡ d = cc k in
    let t : String.◌++◌ a u ≡ String.◌++◌ b v = cc k in
    elim (prefix_cases a b u v t) [
      | inl (w, p) ↦ inl (w, append.cons c a w ∙ cc (e, p))
      | inr (w, p) ↦ inr (w, append.cons d b w ∙ cc (e, p))
    ]

pub starts_with-comparable :
    (s a b : String)
    → starts_with s a ≡ true
    → starts_with s b ≡ true
    → (starts_with a b || starts_with b a) ≡ true
starts_with-comparable s a b h k =
    let (u, p) = (starts_with_iff s a).0 h in
    let (v, q) = (starts_with_iff s b).0 k in
    elim (prefix_cases a b u v (p ∙ sym q)) [
      | inl i ↦ rw (starts_with_of_prefix a b i) (ground arith)
      | inr i ↦ rw (starts_with_of_prefix b a i) refl
    ]

-- A beginning stays one where text is added.
pub starts_with-longer :
    (s a t : String) → starts_with s a ≡ true → starts_with (String.◌++◌ s t) a ≡ true
starts_with-longer s a t h =
    let (u, p) = (starts_with_iff s a).0 h in
    starts_with_of_prefix a (String.◌++◌ s t)
      (String.◌++◌ u t, sym (append_assoc a u t) ∙ ap (λ x. String.◌++◌ x t) p)

pub starts_with_self : (s : String) → starts_with s s ≡ true
starts_with_self s = starts_with_of_prefix s s ("", append-nil s)
