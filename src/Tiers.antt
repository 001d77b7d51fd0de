-- ===== src/Tiers.antt =====
-- frontend/src/app/(auth)/admin/tiers/page.tsx: the selection of features in the dialog of a tier. The `Set` of
-- selected codes is the list of its members in the order in which they were added.
pub mod Members
pub mod Selection
pub mod Dialog
pub mod Submission
use Prim.Native.Char.{code}
use Prim.Native.String
use harmony_saas_multitenanc.Base.{
  String, Bool, true, false, not, ◌&&◌, List, [], ◌∷◌, ◌++◌, ◌==◌, if◌then◌else◌, length, all, ltb,
  contains, ℕ, ◌+◌, nat_eq, ◌||◌,
}
use harmony_saas_multitenanc.Features.Registry.{FeatureMetadata, FeatureModule, features_of}

-- `set.add(x)` and `set.delete(x)`
unfoldable pub add : String → List String → List String
add x s = if contains s x then s else s ++ x ∷ []

unfoldable pub delete : String → List String → List String
delete x [] = []
delete x (y ∷ s) = let rest = delete x s in if y == x then rest else y ∷ rest

-- `new Set(xs)`
unfoldable pub set_from : List String → List String → List String
set_from s [] = s
set_from s (x ∷ xs) = set_from (add x s) xs

-- `f.includes('.')`
unfoldable pub has_dot : String → Bool
has_dot String.[] = false
has_dot (String.◌∷◌ c s) = nat_eq (code c) b'.' || has_dot s

unfoldable pub filter_valid : List String → List String
filter_valid [] = []
filter_valid (f ∷ fs) = let rest = filter_valid fs in if has_dot f then f ∷ rest else rest

-- What `openEditDialog` selects of a tier's features.
unfoldable pub select_valid : List String → List String
select_valid features = set_from [] (filter_valid features)

unfoldable pub toggle_feature : String → List String → List String
toggle_feature code selected =
    if contains selected code then delete code selected else add code selected

-- the `forEach` of `toggleModule`
unfoldable pub toggle_each : Bool → List FeatureMetadata → List String → List String
toggle_each checked [] selected = selected
toggle_each checked (f ∷ fs) selected =
    toggle_each checked fs (if checked then add f.code selected else delete f.code selected)

unfoldable pub toggle_module : FeatureModule → Bool → List String → List String
toggle_module m checked selected = toggle_each checked (features_of m) selected

unfoldable pub is_module_fully_selected : FeatureModule → List String → Bool
is_module_fully_selected m selected = all (λ f. contains selected f.code) (features_of m)

unfoldable pub count_selected : List FeatureMetadata → List String → ℕ
count_selected [] selected = 0
count_selected (f ∷ fs) selected =
    (if contains selected f.code then 1 else 0) + count_selected fs selected

unfoldable pub is_module_partially_selected : FeatureModule → List String → Bool
is_module_partially_selected m selected =
    let selected_count = count_selected (features_of m) selected in
    ltb 0 selected_count && ltb selected_count (length (features_of m))
