-- ===== src/Navigation/Menu.antt =====
-- frontend/src/components/layout/AppSidebar.tsx: which items the sidebar shows, and that one of them at most is active.
use Prim.Native.String
use mathlib.Core.Path.{subst}
use harmony_saas_multitenanc.Base.{
  String, Bool, true, false, not, ◌≡◌, ◌≤◌, refl, Option, none, some, List, [], ◌∷◌, length, ◌==◌,
  ◌&&◌, ◌||◌, if◌then◌else◌, starts_with, lookup, all, eq_iff, arith, ◌⊎◌, inl, inr, Bool-cases,
  starts_with-comparable, starts_with-longer, starts_with_self,
}
use harmony_saas_multitenanc.Auth.{User}
use harmony_saas_multitenanc.Permission.{use_tenant_permission}
use harmony_saas_multitenanc.Navigation.Sidebar.{
  NavItem, Variant, admin, dashboard, navigation, admin_base_navigation, admin_dev_navigation,
  dashboard_navigation, is_active_link, is_shown, filter_items, permission_map,
}

-- The check of the permission that an item names.
abbrev pub may_see : Option User → NavItem → Bool
may_see user i = elim i.permission [ none ↦ true | some p ↦ use_tenant_permission user p ]

-- The sidebar of a tenant shows, in their order, exactly the items whose permission the user has: the
-- table of permissions in the sidebar agrees with the check for each of them.
pub sidebar_by_permission :
    (dev_mode : Bool) (user : Option User)
    → navigation dashboard dev_mode user ≡ filter_items (may_see user) dashboard_navigation
unfolding navigation filter_items is_shown permission_map dashboard_navigation use_tenant_permission
    lookup
sidebar_by_permission dev_mode user = refl

-- The two addresses that are active at themselves only.
abbrev is_root : String → Bool
is_root href = href == "/admin" || href == "/dashboard"

abbrev slashed : String → String
slashed s = String.◌++◌ s "/"

-- Two addresses that no pathname makes active together.
apart_cases :
    (x y ra rb : Bool)
    → ((not x && not y) || (ra && not x) || (rb && not y)) ≡ true
    → (x || y) ≡ true
    → ((ra ≡ true) × (x ≡ false)) ⊎ ((rb ≡ true) × (y ≡ false))
apart_cases x y ra rb h k = ground arith

abbrev apart : String → String → Bool
apart a b =
    (not (starts_with (slashed a) (slashed b)) && not (starts_with (slashed b) (slashed a)))
    || (is_root a && not (starts_with (slashed a) (slashed b)))
    || (is_root b && not (starts_with (slashed b) (slashed a)))

-- The two ways in which an item is active.
active_test :
    (r q s : Bool)
    → (if r then q else (if q then true else s)) ≡ true
    → (q ≡ true) ⊎ ((r ≡ false) × (s ≡ true))
active_test true q s h = inl h
active_test false true s h = inl refl
active_test false false s h = inr (refl, h)

active_cases :
    (p h : String)
    → is_active_link p h ≡ true
    → (starts_with (slashed p) (slashed h) ≡ true) × ((p ≡ h) ⊎ (is_root h ≡ false))
unfolding is_active_link
active_cases p h e = elim (active_test (is_root h) (p == h) (starts_with p (slashed h)) e) [
  | inl q ↦
      let same = (eq_iff p h).0 q in
      (
        subst (λ x. starts_with (slashed p) (slashed x) ≡ true) same (starts_with_self (slashed p)),
        inl same,
      )
  | inr (r, s) ↦ (starts_with-longer p (slashed h) "/" s, inr r)
]

and_cases : (a b : Bool) → (a && b) ≡ true → (a ≡ true) × (b ≡ true)
and_cases a b h = (ground arith, ground arith)

clash : {A : Type 0} {b : Bool} → b ≡ true → b ≡ false → A
clash h k = absurd (cc (h, k))

-- A root is active at itself only, and so with no item whose address its own does not begin with.
root_clash :
    {A : Type 0} (p a b : String)
    → (p ≡ a) ⊎ (is_root a ≡ false)
    → is_root a ≡ true
    → starts_with (slashed p) (slashed b) ≡ true
    → starts_with (slashed a) (slashed b) ≡ false
    → A
root_clash p a b (inl e) r h x =
    clash (subst (λ q. starts_with (slashed q) (slashed b) ≡ true) e h) x
root_clash p a b (inr s) r h x = clash r s

-- Of two addresses of which neither begins with the other, unless a root is one of them, one at most is active.
roots_apart :
    {A : Type 0} (a b p : String)
    → apart a b ≡ true
    → is_active_link p a ≡ true
    → is_active_link p b ≡ true
    → A
roots_apart a b p t h k =
    let (ha, ca) = active_cases p a h in
    let (hb, cb) = active_cases p b k in
    let n = starts_with-comparable (slashed p) (slashed a) (slashed b) ha hb in
    elim (apart_cases (starts_with (slashed a) (slashed b)) (starts_with (slashed b) (slashed a))
      (is_root a) (is_root b) t n) [
        | inl (r, x) ↦ root_clash p a b ca r hb x
        | inr (r, y) ↦ root_clash p b a cb r ha y
      ]

apart-inactive :
    (a b p : String) → apart a b ≡ true → is_active_link p a ≡ true → is_active_link p b ≡ false
apart-inactive a b p t h = elim (Bool-cases (is_active_link p b)) [
  | inl k ↦ roots_apart a b p t h k
  | inr k ↦ k
]

-- Every item of a menu is apart from each that follows it.
abbrev pairwise : List NavItem → Bool
pairwise [] = true
pairwise (i ∷ is) = all (λ (j : NavItem). apart i.href j.href) is && pairwise is

all-filter_items :
    (q keep : NavItem → Bool) (is : List NavItem)
    → all q is ≡ true
    → all q (filter_items keep is) ≡ true
unfolding filter_items
all-filter_items q keep [] h = refl
all-filter_items q keep (i ∷ is) h = ground (arith, all-filter_items q keep is)

pairwise-filter_items :
    (keep : NavItem → Bool) (is : List NavItem)
    → pairwise is ≡ true
    → pairwise (filter_items keep is) ≡ true
unfolding filter_items
pairwise-filter_items keep [] h = refl
pairwise-filter_items keep (i ∷ is) h = ground (
  arith,
  pairwise-filter_items keep is,
  all-filter_items (λ (j : NavItem). apart i.href j.href) keep is,
)

-- The items that a pathname makes active.
abbrev pub active_items : String → List NavItem → List NavItem
active_items pathname = filter_items (λ (i : NavItem). is_active_link pathname i.href)

none_active :
    (p : String) (i : NavItem) (is : List NavItem)
    → is_active_link p i.href ≡ true
    → all (λ (j : NavItem). apart i.href j.href) is ≡ true
    → length (active_items p is) ≡ 0
unfolding filter_items
none_active p i [] h t = refl
none_active p i (j ∷ js) h t =
    let (here, later) = and_cases (apart i.href j.href) _ t in
    rw (apart-inactive i.href j.href p here h) (none_active p i js h later)

at_most_one : (p : String) (is : List NavItem) → pairwise is ≡ true → length (active_items p is) ≤ 1
unfolding filter_items
at_most_one p [] t = omega arith
at_most_one p (i ∷ is) t =
    let (here, later) = and_cases (all (λ (j : NavItem). apart i.href j.href) is) _ t in
    elim (Bool-cases (is_active_link p i.href)) [
      | inl h ↦ rw (h, none_active p i is h here) (omega arith)
      | inr h ↦ rw h (at_most_one p is later)
    ]

navigation-pairwise :
    (v : Variant) (dev_mode : Bool) (user : Option User)
    → pairwise (navigation v dev_mode user) ≡ true
unfolding navigation admin_base_navigation admin_dev_navigation dashboard_navigation
navigation-pairwise admin true user = refl
navigation-pairwise admin false user = refl
navigation-pairwise dashboard dev_mode user =
    pairwise-filter_items (is_shown user) dashboard_navigation refl

-- At every pathname, at most one of the items that the sidebar shows is the active one, counted by their
-- positions, whichever the user and the mode.
pub active_link_unique :
    (v : Variant) (dev_mode : Bool) (user : Option User) (pathname : String)
    → length (active_items pathname (navigation v dev_mode user)) ≤ 1
active_link_unique v dev_mode user pathname =
    at_most_one pathname (navigation v dev_mode user) (navigation-pairwise v dev_mode user)
