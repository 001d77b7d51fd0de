-- ===== src/Features/Checks.antt =====
-- frontend/src/hooks/use-feature.ts: the checks of features, as functions of the list that the store holds.
use Prim.Native.String
use mathlib.Core.Bool.{and-eq-true_iff}
use mathlib.Core.Path.{ap₂}
use harmony_saas_multitenanc.Base.{
  String, Bool, true, ◌||◌, ◌≡◌, refl, List, [], ◌∷◌, map, arith, ◌==◌, all, any, contains,
  starts_with, all-contains, lookup, bool_eq, sym, ◌∙◌, bool_eq→eq, false,
}
use harmony_saas_multitenanc.Features.Registry.{
  FeatureModule, FeatureMetadata, pos, inventory, masterdata, purchasing, reports, platform,
  loyalty, hr, key, feature_registry, features_of, get_all_feature_codes, get_features_by_module,
  group_from, add_to_group,
}

unfoldable pub use_feature : List String → String → Bool
use_feature features code = contains features code

unfoldable pub use_features : List String → List String → List Bool
use_features features codes = map (contains features) codes

unfoldable pub use_any_feature : List String → List String → Bool
use_any_feature features codes = any (contains features) codes

unfoldable pub use_all_features : List String → List String → Bool
use_all_features features codes = all (contains features) codes

unfoldable pub use_enabled_features : List String → List String
use_enabled_features features = features

unfoldable pub use_module_enabled : List String → String → Bool
use_module_enabled features module_of =
    any (λ f. starts_with f (String.◌++◌ module_of ".")) features

any-or :
    {A : Type 0} (p q : A → Bool) (xs : List A) → any (λ x. p x || q x) xs ≡ (any p xs || any q xs)
any-or p q [] = refl
any-or p q (x ∷ xs) = ground (arith, any-or p q xs)

abbrev has_code : String → FeatureMetadata → Bool
has_code code f = code == f.code

-- A code of the registry begins with the name of a module exactly if a feature of it has that code.
prefix_table :
    (m : FeatureModule)
    → all
        (λ c. bool_eq (starts_with c (String.◌++◌ (key m) ".")) (any (has_code c) (features_of m)))
        get_all_feature_codes
      ≡ true
unfolding get_all_feature_codes features_of get_features_by_module group_from add_to_group
    feature_registry key lookup
prefix_table pos = refl
prefix_table inventory = refl
prefix_table masterdata = refl
prefix_table purchasing = refl
prefix_table reports = refl
prefix_table platform = refl
prefix_table loyalty = refl
prefix_table hr = refl

any-false : {A : Type 0} (xs : List A) → any (λ _. false) xs ≡ false
any-false [] = refl
any-false (x ∷ xs) = any-false xs

prefix_of_known :
    (m : FeatureModule) (c : String)
    → contains get_all_feature_codes c ≡ true
    → starts_with c (String.◌++◌ (key m) ".") ≡ any (has_code c) (features_of m)
prefix_of_known m c known = bool_eq→eq _ _ (
    all-contains
      (λ c. bool_eq (starts_with c (String.◌++◌ (key m) ".")) (any (has_code c) (features_of m)))
      get_all_feature_codes c (prefix_table m) known)

-- Where all enabled features are in the registry, the test of a module by the beginning of the codes
-- finds the module enabled exactly if one of the module's features is.
pub use_module_enabled_iff :
    (m : FeatureModule) (features : List String)
    → all (contains get_all_feature_codes) features ≡ true
    → use_module_enabled features (key m)
      ≡ any (λ (f : FeatureMetadata). use_feature features f.code) (features_of m)
unfolding use_module_enabled use_feature contains
use_module_enabled_iff m [] h = sym (any-false (features_of m))
use_module_enabled_iff m (c ∷ cs) h =
    let known = (and-eq-true_iff _ _).0 h in
    ap₂ ◌||◌ (prefix_of_known m c known.0) (use_module_enabled_iff m cs known.1)
    ∙ sym (any-or (has_code c) (λ f. contains cs f.code) (features_of m))
