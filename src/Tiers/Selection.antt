-- ===== src/Tiers/Selection.antt =====
-- What the toggles of frontend/src/app/(auth)/admin/tiers/page.tsx do to the selection, and how the state of
-- a module's box follows.
use harmony_saas_multitenanc.Base.{
  ◌==◌, eq_iff, ◌≤◌, ◌<◌, String, Bool, true, false, not, ◌&&◌, ◌≡◌, ◌↔◌, refl, ◌∙◌, List, [], ◌∷◌,
  map, arith, if◌then◌else◌, contains, length, all, ltb,
}
use harmony_saas_multitenanc.Features.Registry.{FeatureMetadata, FeatureModule, features_of}
use harmony_saas_multitenanc.Tiers.{
  toggle_feature, add, delete, toggle_each, toggle_module, is_module_fully_selected,
  is_module_partially_selected, count_selected,
}
use harmony_saas_multitenanc.Tiers.Members.{contains-add, contains-delete}

abbrev pub codes_of : List FeatureMetadata → List String
codes_of fs = map (λ (f : FeatureMetadata). f.code) fs

contains-toggle_each :
    (checked : Bool) (fs : List FeatureMetadata) (s : List String) (x : String)
    → contains (toggle_each checked fs s) x
      ≡ (if contains (codes_of fs) x then checked else contains s x)
unfolding toggle_each contains
contains-toggle_each checked [] s x = refl
contains-toggle_each true (f ∷ fs) s x =
    contains-toggle_each true fs (add f.code s) x ∙ ground (arith, contains-add f.code x s)
contains-toggle_each false (f ∷ fs) s x =
    contains-toggle_each false fs (delete f.code s) x ∙ ground (arith, contains-delete f.code x s)

-- A click on a feature changes whether it is selected and leaves every other code; the box of a module
-- sets all features of the module to its new state and leaves every other code.
pub toggle_effects :
    (code : String) (m : FeatureModule) (checked : Bool) (s : List String) (x : String)
    → (contains (toggle_feature code s) x
        ≡ (if code == x then not (contains s x) else contains s x))
      × (contains (toggle_module m checked s) x
          ≡ (if contains (codes_of (features_of m)) x then checked else contains s x))
unfolding toggle_feature toggle_module
toggle_effects code m checked s x = (
  ground (arith, eq_iff code x, contains-add code x s, contains-delete code x s),
  contains-toggle_each checked (features_of m) s x,
)

-- The three states of a box.
count-le : (fs : List FeatureMetadata) (s : List String) → count_selected fs s ≤ length fs
unfolding count_selected
count-le [] s = omega arith
count-le (f ∷ fs) s = ground (arith, count-le fs s)

count-eq-length :
    (fs : List FeatureMetadata) (s : List String)
    → all (λ (f : FeatureMetadata). contains s f.code) fs
      ≡ not (ltb (count_selected fs s) (length fs))
unfolding count_selected
count-eq-length [] s = refl
count-eq-length (f ∷ fs) s = ground (arith, count-eq-length fs s, count-le fs s)

-- The number of the module's features that are selected decides the box: it is full at all of them,
-- partial strictly between none and all, and never both.
pub box_state :
    (m : FeatureModule) (s : List String)
    → let n = count_selected (features_of m) s in
      ((is_module_fully_selected m s ≡ true) ↔ (n ≡ length (features_of m)))
      × ((is_module_partially_selected m s ≡ true) ↔ ((0 < n) × (n < length (features_of m))))
      × ((is_module_fully_selected m s && is_module_partially_selected m s) ≡ false)
unfolding is_module_fully_selected is_module_partially_selected
box_state m s = (
  (
    λ h. ground (arith, count-eq-length (features_of m) s, count-le (features_of m) s),
    λ h. ground (arith, count-eq-length (features_of m) s),
  ),
  (λ h. (ground arith, ground arith), λ h. ground arith),
  ground (arith, count-eq-length (features_of m) s),
)
