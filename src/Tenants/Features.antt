-- ===== src/Tenants/Features.antt =====
-- frontend/src/app/(auth)/admin/tenants/[id]/page.tsx: the switches of the features, and what is saved of them.
use harmony_saas_multitenanc.Base.{
  String, Bool, false, ◌≡◌, refl, ◌∙◌, none, some, List, [], ◌∷◌, ◌==◌, if◌then◌else◌, lookup, keys,
  contains, arith, eq_iff, Bool-cases, inl, inr, ap,
}
use harmony_saas_multitenanc.Tenants.{
  TenantDetail, TenantPage, set_feature, toggle_switch, is_feature_enabled, handle_save_features,
  update_features, is_on, or_stored, tenant_arrives, first_tenant_page,
}

lookup-set_feature :
    (key wanted : String) (b : Bool) (table : List (String × Bool))
    → lookup wanted (set_feature key b table)
      ≡ (if key == wanted then some b else lookup wanted table)
unfolding lookup set_feature
lookup-set_feature key wanted b [] = refl
lookup-set_feature key wanted b ((k, v) ∷ rest) =
    let again = lookup-set_feature key wanted b rest in
    elim (Bool-cases (k == key)) [
      | inl e ↦ rw e (ground (arith, eq_iff k key, eq_iff k wanted, eq_iff key wanted))
      | inr e ↦ rw e (ground (arith, again, eq_iff k key, eq_iff k wanted, eq_iff key wanted))
    ]

-- The switches that the user turns, in their order.
unfoldable pub switch_all : List (String × Bool) → TenantPage → TenantPage
switch_all [] p = p
switch_all ((key, b) ∷ rest) p = switch_all rest (toggle_switch key b p)

toggle_switch-features :
    (key : String) (b : Bool) (p : TenantPage)
    → (toggle_switch key b p).features ≡ set_feature key b p.features
unfolding toggle_switch
toggle_switch-features key b p = refl

lookup-switch_all :
    (cs : List (String × Bool)) (key : String) (p : TenantPage)
    → contains (keys cs) key ≡ false
    → lookup key (switch_all cs p).features ≡ lookup key p.features
unfolding switch_all contains keys
lookup-switch_all [] key p h = refl
lookup-switch_all ((k, b) ∷ cs) key p h =
    lookup-switch_all cs key (toggle_switch k b p) (ground arith)
    ∙ ap (lookup key) (toggle_switch-features k b p)
    ∙ lookup-set_feature k key b p.features
    ∙ ground (arith, eq_iff k key)

is_feature_enabled-untouched :
    (t : TenantDetail) (key : String) (p : TenantPage)
    → lookup key p.features ≡ none
    → is_feature_enabled t key p ≡ is_on (lookup key t.features)
unfolding is_feature_enabled
is_feature_enabled-untouched t key p h = ap (λ o. or_stored o (lookup key t.features)) h

lookup-first_tenant_page :
    (t : TenantDetail) (key : String)
    → lookup key (tenant_arrives t first_tenant_page).features ≡ none
unfolding tenant_arrives first_tenant_page lookup
lookup-first_tenant_page t key = refl

-- Whatever switches the user turns, a feature whose switch was not turned is shown as the tenant has it, but is
-- not among the features that are saved, whether the tenant has it or not.
pub untouched_features_not_saved :
    (t : TenantDetail) (cs : List (String × Bool)) (key : String)
    → contains (keys cs) key ≡ false
    → let after = switch_all cs (tenant_arrives t first_tenant_page) in
      (is_feature_enabled t key after ≡ is_on (lookup key t.features))
      × (handle_save_features after ≡ update_features after.features)
      × (lookup key after.features ≡ none)
unfolding handle_save_features
untouched_features_not_saved t cs key untouched =
    let page = tenant_arrives t first_tenant_page in
    let absent : lookup key page.features ≡ none = lookup-first_tenant_page t key in
    let gone = lookup-switch_all cs key page untouched ∙ absent in
    (is_feature_enabled-untouched t key (switch_all cs page) gone, refl, gone)
