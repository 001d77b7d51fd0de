-- ===== src/Tiers/Members.antt =====
-- Membership in the sets of frontend/src/app/(auth)/admin/tiers/page.tsx after each operation on them.
use harmony_saas_multitenanc.Base.{
  String, false, not, ◌&&◌, ◌||◌, ◌≡◌, refl, List, [], ◌∷◌, arith, ◌==◌, eq_iff, contains,
  contains-append,
}
use harmony_saas_multitenanc.Tiers.{add, delete}

pub contains-add :
    (x y : String) (s : List String) → contains (add x s) y ≡ (x == y || contains s y)
unfolding add
contains-add x y s = ground (arith, eq_iff x y, contains-append s (x ∷ []) y, single x y)
  where
    single : (x y : String) → contains (x ∷ []) y ≡ (x == y || false)
    single x y = unfold contains in refl

pub contains-delete :
    (x y : String) (s : List String) → contains (delete x s) y ≡ (not (x == y) && contains s y)
unfolding delete contains
contains-delete x y [] = ground arith
contains-delete x y (z ∷ s) =
    ground (arith, eq_iff z x, eq_iff z y, eq_iff x y, contains-delete x y s)
