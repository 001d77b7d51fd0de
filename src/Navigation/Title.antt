-- ===== src/Navigation/Title.antt =====
-- frontend/src/components/layout/route-meta.ts: the entry that a pathname gets is that of its longest known prefix.
use mathlib.Core.Path.{subst}
use harmony_saas_multitenanc.Base.{
  ℕ, zero, suc, ◌<◌, ◌≤◌, ◌≡◌, ◌≢◌, ◌⊎◌, inl, inr, refl, sym, String, List, arith, length, Found,
  own, Bool-cases, ltb, false, inherited, missing, property,
}
use harmony_saas_multitenanc.Navigation.Routes.{
  RouteMeta, segments, prefix_at, or_else, match_prefix, get_route_meta,
}

-- The pathname itself is known; or its longest prefix of whole segments is, with i of them; or neither
-- the pathname nor any prefix is.
pub data Longest (pathname : String) (table : List (String × RouteMeta))
    : Found RouteMeta → Type 0 where
  exact :
      (f : Found RouteMeta) → f ≢ missing → property table pathname ≡ f → Longest pathname table f
  by_prefix :
      (f : Found RouteMeta) (i : ℕ)
      → f ≢ missing
      → property table pathname ≡ missing
      → 0 < i
      → i ≤ length (segments pathname)
      → property table (prefix_at (segments pathname) i) ≡ f
      → ((j : ℕ)
          → i < j
          → j ≤ length (segments pathname)
          → property table (prefix_at (segments pathname) j) ≡ missing)
      → Longest pathname table f
  unknown :
      property table pathname ≡ missing
      → ((j : ℕ)
          → 0 < j
          → j ≤ length (segments pathname)
          → property table (prefix_at (segments pathname) j) ≡ missing)
      → Longest pathname table missing

-- An entry that was found, or none.
found_cases : {A : Type 0} (f : Found A) → (f ≢ missing) ⊎ (f ≡ missing)
found_cases (own v) = inl (λ h. cc h)
found_cases inherited = inl (λ h. cc h)
found_cases missing = inr refl

or_else_found : {A : Type 0} (f g : Found A) → f ≢ missing → or_else f g ≡ f
unfolding or_else
or_else_found (own v) g h = refl
or_else_found inherited g h = refl
or_else_found missing g h = absurd (h refl)

exactly : (i j : ℕ) → i < j → ltb (suc i) j ≡ false → j ≡ suc i
exactly i j lt e = ground arith

module _ (pathname : String) (table : List (String × RouteMeta)) where
  abbrev at_prefix : ℕ → Found RouteMeta
  at_prefix j = property table (prefix_at (segments pathname) j)

  search-Longest :
      (i : ℕ)
      → i ≤ length (segments pathname)
      → property table pathname ≡ missing
      → ((j : ℕ) → i < j → j ≤ length (segments pathname) → at_prefix j ≡ missing)
      → Longest pathname table (match_prefix table (segments pathname) i)
  unfolding match_prefix or_else
  search-Longest zero le m none_longer = unknown m none_longer
  search-Longest (suc i) le m none_longer = elim (found_cases (at_prefix (suc i))) [
    | inl h ↦
        rw (or_else_found (at_prefix (suc i)) (match_prefix table (segments pathname) i) h)
          (by_prefix _ (suc i) h m (omega arith) le refl none_longer)
    | inr h ↦
        rw (h, or_else)
          (search-Longest i (omega arith) m (λ j lt b. elim (Bool-cases (ltb (suc i) j)) [
            | inl e ↦ none_longer j (ground arith) b
            | inr e ↦ subst (λ k. at_prefix k ≡ missing) (sym (exactly i j lt e)) h
          ]))
  ]

-- The entry that a pathname gets is the one of the pathname, or else that of the longest prefix of its
-- segments that the table knows; it gets none exactly where the table knows neither.
pub get_route_meta-Longest :
    (pathname : String) (table : List (String × RouteMeta))
    → Longest pathname table (get_route_meta pathname table)
unfolding get_route_meta or_else
get_route_meta-Longest pathname table = elim (found_cases (property table pathname)) [
  | inl h ↦ rw (or_else_found (property table pathname) _ h) (exact _ h refl)
  | inr h ↦
      rw (h, or_else)
        (search-Longest pathname table (length (segments pathname)) (omega arith) h
          (λ j a b. absurd (omega arith)))
]
