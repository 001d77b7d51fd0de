-- ===== src/Features/Grouping.antt =====
-- The grouping loop of frontend/src/types/features.ts against a plain filter.
use mathlib.Core.List.{append-nil, append_assoc}
use harmony_saas_multitenanc.Base.{
  String, ◌≡◌, List, [], ◌∷◌, ◌++◌, arith, ◌==◌, eq_iff, if◌then◌else◌, lookup, sym, Bool-cases,
  inl, inr,
}
use harmony_saas_multitenanc.Features.Registry.{
  FeatureMetadata, Grouped, key, add_to_group, group_from, or_none,
}

-- The features of a list that belong to a module.
pub belonging : String → List FeatureMetadata → List FeatureMetadata
belonging k [] = []
belonging k (f ∷ fs) = let rest = belonging k fs in if key f.module_of == k then f ∷ rest else rest

lookup-add_to_group :
    (k : String) (f : FeatureMetadata) (g : Grouped)
    → or_none (lookup k (add_to_group f g))
      ≡ (if key f.module_of == k then or_none (lookup k g) ++ f ∷ [] else or_none (lookup k g))
unfolding lookup add_to_group
lookup-add_to_group k f [] = ground arith
lookup-add_to_group k f ((j, fs) ∷ rest) = ground (
  arith,
  eq_iff j (key f.module_of),
  eq_iff j k,
  eq_iff (key f.module_of) k,
  lookup-add_to_group k f rest,
)

lookup-group_from :
    (k : String) (g : Grouped) (fs : List FeatureMetadata)
    → or_none (lookup k (group_from g fs)) ≡ or_none (lookup k g) ++ belonging k fs
unfolding group_from belonging
lookup-group_from k g [] = sym (append-nil _)
lookup-group_from k g (f ∷ fs) = elim (Bool-cases (key f.module_of == k)) [
  | inl e ↦
      rw (lookup-group_from k (add_to_group f g) fs, lookup-add_to_group, e)
        (append_assoc _ (f ∷ []) (belonging k fs))
  | inr e ↦ rw (lookup-group_from k (add_to_group f g) fs, lookup-add_to_group, e)
]

-- The loop that groups features by module gives every module the features of the list with that
-- module, in the order of the list, and a module without features no group with any.
pub group_from-belonging :
    (k : String) (fs : List FeatureMetadata)
    → or_none (lookup k (group_from [] fs)) ≡ belonging k fs
unfolding lookup belonging
group_from-belonging k fs = lookup-group_from k [] fs
