-- ===== src/Tenants.antt =====
-- frontend/src/app/(auth)/admin/tenants/[id]/page.tsx: the page on which the platform changes a tenant: its forms
-- and what they send. A handler reads the state of the last rendering, whatever it sets itself.
pub mod Subscription
pub mod Features
use Prim.Native.String
use harmony_saas_multitenanc.Base.{
  ℕ, String, Bool, true, false, not, ◌&&◌, Option, none, some, List, [], ◌∷◌, ◌==◌, nat_eq,
  if◌then◌else◌, lookup,
}
use harmony_saas_multitenanc.Browser.{truthy}
use harmony_saas_multitenanc.Numerals.{Number, nan, infinite, finite}

pub record SubscriptionUpdateData : Type 0 where
  pub tier : String
  pub subscription_status : String
  pub max_users : Number
  pub max_branches : Number
  pub max_storage_gb : Number

-- A tenant; what else the settings and the dates hold is only shown.
pub record TenantDetail : Type 0 where
  pub id : String
  pub name : String
  pub subdomain : String
  pub domain : Option String
  pub logo_url : Option String
  pub tier : String
  pub subscription_status : String
  pub max_users : Number
  pub max_branches : Number
  pub max_storage_gb : Number
  pub user_count : ℕ
  pub branch_count : ℕ
  pub is_active : Bool
  pub features : List (String × Bool)

pub record TenantPage : Type 0 where
  pub edit_dialog_open : Bool
  pub delete_dialog_open : Bool
  pub delete_confirm_name : String
  pub edit_name : String
  pub edit_domain : String
  pub edit_logo_url : String
  pub sub_tier : String
  pub sub_status : String
  pub sub_max_users : Number
  pub sub_max_branches : Number
  pub sub_max_storage : Number
  pub features : List (String × Bool)
  pub tenant : Option TenantDetail

abbrev pub zero_number : Number
zero_number = finite false 0 0

unfoldable pub first_tenant_page : TenantPage
first_tenant_page = record {
  edit_dialog_open = false;
  delete_dialog_open = false;
  delete_confirm_name = "";
  edit_name = "";
  edit_domain = "";
  edit_logo_url = "";
  sub_tier = "";
  sub_status = "";
  sub_max_users = zero_number;
  sub_max_branches = zero_number;
  sub_max_storage = zero_number;
  features = [];
  tenant = none;
}

-- The query of the tenant is answered, at first or anew.
unfoldable pub tenant_arrives : TenantDetail → TenantPage → TenantPage
tenant_arrives t p = record p { tenant = some t }

-- `text || ''`
abbrev text_or_blank : Option String → String
text_or_blank none = ""
text_or_blank (some s) = s

unfoldable pub initialize_edit_form : TenantPage → TenantPage
initialize_edit_form p = elim p.tenant [
  | none ↦ p
  | some t ↦ record p {
    edit_name = t.name;
    edit_domain = text_or_blank t.domain;
    edit_logo_url = text_or_blank t.logo_url;
  }
]

unfoldable pub initialize_subscription_form : TenantPage → TenantPage
initialize_subscription_form p = elim p.tenant [
  | none ↦ p
  | some t ↦ record p {
    sub_tier = t.tier;
    sub_status = t.subscription_status;
    sub_max_users = t.max_users;
    sub_max_branches = t.max_branches;
    sub_max_storage = t.max_storage_gb;
  }
]

pub record TenantInfoUpdate : Type 0 where
  pub name : String
  pub domain : Option String
  pub logo_url : Option String

pub data TenantCall : Type 0 where
  update_tenant : TenantInfoUpdate → TenantCall
  update_subscription : SubscriptionUpdateData → TenantCall
  update_features : List (String × Bool) → TenantCall
  update_status : Bool → String → TenantCall
  delete_tenant : TenantCall

unfoldable pub handle_save_info : TenantPage → TenantCall
handle_save_info p = update_tenant (record {
  name = p.edit_name;
  domain = truthy (some p.edit_domain);
  logo_url = truthy (some p.edit_logo_url);
})

unfoldable pub handle_save_subscription : TenantPage → SubscriptionUpdateData
handle_save_subscription p = record {
  tier = p.sub_tier;
  subscription_status = p.sub_status;
  max_users = p.sub_max_users;
  max_branches = p.sub_max_branches;
  max_storage_gb = p.sub_max_storage;
}

-- The button under the form of the subscription: what it sends, and the page afterwards.
unfoldable pub click_save_subscription : TenantPage → TenantCall × TenantPage
unfolding handle_save_subscription initialize_subscription_form
click_save_subscription p =
    (update_subscription (handle_save_subscription p), initialize_subscription_form p)

abbrev or_text : String → String → String
or_text s fallback = if s == "" then fallback else s

abbrev or_number : Number → Number → Number
or_number nan fallback = fallback
or_number (infinite negative) fallback = infinite negative
or_number (finite negative units places) fallback =
    if nat_eq units 0 then fallback else finite negative units places

-- What the form of the subscription shows.
unfoldable pub shown_subscription : TenantDetail → TenantPage → SubscriptionUpdateData
shown_subscription t p = record {
  tier = or_text p.sub_tier t.tier;
  subscription_status = or_text p.sub_status t.subscription_status;
  max_users = or_number p.sub_max_users t.max_users;
  max_branches = or_number p.sub_max_branches t.max_branches;
  max_storage_gb = or_number p.sub_max_storage t.max_storage_gb;
}

unfoldable pub handle_save_features : TenantPage → TenantCall
handle_save_features p = update_features p.features

unfoldable pub handle_toggle_status : TenantPage → TenantCall
handle_toggle_status p = elim p.tenant [
  | none ↦ update_status true "Reactivated by super admin"
  | some t ↦
      if t.is_active
      then update_status false "Deactivated by super admin"
      else update_status true "Reactivated by super admin"
]

unfoldable pub handle_delete_tenant : TenantPage → Option TenantCall
handle_delete_tenant p = elim p.tenant [
  | none ↦ none
  | some t ↦ if p.delete_confirm_name == t.name then some delete_tenant else none
]

-- `{ ...prev, [key]: checked }`
unfoldable pub set_feature : String → Bool → List (String × Bool) → List (String × Bool)
set_feature key checked [] = (key, checked) ∷ []
set_feature key checked ((k, b) ∷ rest) =
    let after = set_feature key checked rest in
    if k == key then (k, checked) ∷ rest else (k, b) ∷ after

unfoldable pub toggle_switch : String → Bool → TenantPage → TenantPage
unfolding set_feature
toggle_switch key checked p = record p { features = set_feature key checked p.features }

abbrev pub is_on : Option Bool → Bool
is_on none = false
is_on (some b) = b

abbrev pub or_stored : Option Bool → Option Bool → Bool
or_stored (some b) stored = b
or_stored none stored = is_on stored

-- Whether the switch of a feature is on.
unfoldable pub is_feature_enabled : TenantDetail → String → TenantPage → Bool
is_feature_enabled t key p = or_stored (lookup key p.features) (lookup key t.features)
