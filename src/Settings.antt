-- ===== src/Settings.antt =====
-- frontend/src/app/(dashboard)/settings/page.tsx: the settings of a tenant, how they are loaded, edited and saved.
pub mod Controls
pub mod Saving
pub mod Viewing
use Prim.Native.String
use harmony_saas_multitenanc.Base.{
  ℕ, zero, suc, ◌+◌, ◌-◌, String, Bool, true, false, not, ◌&&◌, Option, none, some, List, [], ◌∷◌,
  ltb, nat_eq, ◌==◌, if◌then◌else◌, lookup,
}
use harmony_saas_multitenanc.Browser.{truthy}
use harmony_saas_multitenanc.Client.{Reply, success, failure, Failure}
use harmony_saas_multitenanc.Payment.{BillingPeriod, UpgradeRequest}
use harmony_saas_multitenanc.Numerals.{Number, nan, infinite, finite}
use harmony_saas_multitenanc.Format.{FormatSettings, Position, default_format_settings}
use harmony_saas_multitenanc.Base.Characters.{Text}
use harmony_saas_multitenanc.Public.{Shown, detail_or}

-- A value of JSON: an array or an object is its text.
pub data Json : Type 0 where
  null_value : Json
  boolean : Bool → Json
  number : Number → Json
  word : String → Json
  compound : String → Json

-- `value || 'id'`
unfoldable pub or_indonesian : Json → Json
or_indonesian null_value = word "id"
or_indonesian (boolean b) = if b then boolean b else word "id"
or_indonesian (number nan) = word "id"
or_indonesian (number (infinite negative)) = number (infinite negative)
or_indonesian (number (finite negative units places)) =
    if nat_eq units 0 then word "id" else number (finite negative units places)
or_indonesian (word s) = if s == "" then word "id" else word s
or_indonesian (compound s) = compound s

pub record TenantInfo : Type 0 where
  pub id : String
  pub name : String
  pub subdomain : String
  pub logo_url : Option String
  pub tier : String
  pub subscription_status : String
  pub max_users : Number
  pub max_branches : Number
  pub max_storage_gb : Number
  pub settings : List (String × Json)

pub record UsageData : Type 0 where
  pub tenant_id : String
  pub tenant_name : String
  pub tier : String
  pub users_current : Number
  pub users_limit : Number
  pub users_available : Number
  pub users_percent : Number
  pub branches_current : Number
  pub branches_limit : Number
  pub branches_available : Number
  pub branches_percent : Number
  pub storage_used_gb : Number
  pub storage_limit_gb : Number
  pub storage_available_gb : Number
  pub storage_percent : Number
  pub is_user_limit_reached : Bool
  pub is_branch_limit_reached : Bool
  pub is_storage_limit_reached : Bool
  pub can_upgrade : Bool
  pub next_tier : Option String

pub record TierInfo : Type 0 where
  pub tier : String
  pub display_name : String
  pub price_monthly : Number
  pub price_yearly : Number
  pub max_users : Number
  pub max_branches : Number
  pub max_storage_gb : Number
  pub features : List String
  pub is_recommended : Bool

pub record AvailableTiers : Type 0 where
  pub tiers : List TierInfo
  pub current_tier : String

pub record ScheduledChange : Type 0 where
  pub tier_code : String
  pub tier_name : Option String
  pub effective_at : String
  pub days_until : Number

pub record SubscriptionInfo : Type 0 where
  pub tier_code : String
  pub tier_name : String
  pub billing_period : BillingPeriod
  pub subscription_started_at : Option String
  pub subscription_ends_at : Option String
  pub days_remaining : Number
  pub credit_balance : Number
  pub scheduled_change : Option ScheduledChange

-- What `Promise.all` of the six calls gives, if none of the first four is refused.
pub record Loaded : Type 0 where
  pub tenant_data : TenantInfo
  pub usage_data : UsageData
  pub tiers_data : AvailableTiers
  pub format_data : FormatSettings
  pub sub_info_data : Reply SubscriptionInfo
  pub upgrade_data : Reply (List UpgradeRequest)

pub record SaveRequest : Type 0 where
  pub name : String
  pub logo_url : Option String
  pub settings : List (String × Json)

-- A call that one of the two buttons makes, with the body that it sends.
pub data SettingsCall : Type 0 where
  saves : SaveRequest → SettingsCall
  saves_formats : FormatSettings → SettingsCall

-- The state of the page, with the number of loads that are under way, and the calls that its two buttons have
-- made, the last one first.
pub record SettingsPage : Type 0 where
  pub loading : Bool
  pub saving : Bool
  pub save_success : Bool
  pub error : Option Shown
  pub tenant_info : Option TenantInfo
  pub form_name : String
  pub form_logo_url : String
  pub form_language : Json
  pub format_settings : FormatSettings
  pub format_saving : Bool
  pub format_save_success : Bool
  pub format_error : Option Shown
  pub usage : Option UsageData
  pub tiers : Option AvailableTiers
  pub subscription_info : Option SubscriptionInfo
  pub cancelling_schedule : Bool
  pub pending_upgrade : Option UpgradeRequest
  pub loads : ℕ
  pub sent : List SettingsCall

-- The page when its first load has begun.
unfoldable pub first_settings_page : SettingsPage
first_settings_page = record {
  loading = true;
  saving = false;
  save_success = false;
  error = none;
  tenant_info = none;
  form_name = "";
  form_logo_url = "";
  form_language = word "id";
  format_settings = default_format_settings;
  format_saving = false;
  format_save_success = false;
  format_error = none;
  usage = none;
  tiers = none;
  subscription_info = none;
  cancelling_schedule = false;
  pending_upgrade = none;
  loads = 1;
  sent = [];
}

unfoldable pub load_data : SettingsPage → SettingsPage
load_data p = record p { loading = true; error = none; loads = p.loads + 1 }

abbrev or_null : {A : Type 0} → Reply A → Option A
or_null (success a) = some a
or_null (failure f) = none

abbrev first_of : {A : Type 0} → Reply (List A) → Option A
first_of (success []) = none
first_of (success (x ∷ xs)) = some x
first_of (failure f) = none

abbrev pub or_blank : Option String → String
or_blank none = ""
or_blank (some s) = s

-- `tenantData.settings?.language || 'id'`
unfoldable pub language_of : List (String × Json) → Json
language_of settings = elim (lookup "language" settings) [
  | some v ↦ or_indonesian v
  | none ↦ word "id"
]

unfoldable pub load_ends : Reply Loaded → SettingsPage → SettingsPage
unfolding language_of
load_ends (success d) p = record p {
  tenant_info = some d.tenant_data;
  usage = some d.usage_data;
  tiers = some d.tiers_data;
  format_settings = d.format_data;
  subscription_info = or_null d.sub_info_data;
  pending_upgrade = first_of d.upgrade_data;
  form_name = d.tenant_data.name;
  form_logo_url = or_blank d.tenant_data.logo_url;
  form_language = language_of d.tenant_data.settings;
  loading = false;
  loads = p.loads - 1;
}
load_ends (failure f) p = record p {
  error = some (detail_or "Failed to load settings" f);
  loading = false;
  loads = p.loads - 1;
}

-- `{ ...table, [key]: value }`
unfoldable pub spread_with : String → Json → List (String × Json) → List (String × Json)
spread_with key value [] = (key, value) ∷ []
spread_with key value ((k, v) ∷ rest) =
    let after = spread_with key value rest in if k == key then (k, value) ∷ rest else (k, v) ∷ after

abbrev pub settings_of : Option TenantInfo → List (String × Json)
settings_of none = []
settings_of (some t) = t.settings

-- What handleSave sends.
unfoldable pub save_request : SettingsPage → SaveRequest
save_request p = record {
  name = p.form_name;
  logo_url = truthy (some p.form_logo_url);
  settings = spread_with "language" p.form_language (settings_of p.tenant_info);
}

unfoldable pub handle_save : SettingsPage → SettingsPage
unfolding save_request
handle_save p = record p {
  saving = true;
  save_success = false;
  error = none;
  sent = saves (save_request p) ∷ p.sent;
}

unfoldable pub save_ends : Reply TenantInfo → SettingsPage → SettingsPage
save_ends (success updated) p = record p {
  tenant_info = some updated;
  save_success = true;
  saving = false;
}
save_ends (failure f) p = record p {
  error = some (detail_or "Failed to save settings" f);
  saving = false;
}

unfoldable pub handle_format_save : SettingsPage → SettingsPage
handle_format_save p = record p {
  format_saving = true;
  format_save_success = false;
  format_error = none;
  sent = saves_formats p.format_settings ∷ p.sent;
}

unfoldable pub format_save_ends : Reply FormatSettings → SettingsPage → SettingsPage
format_save_ends (success updated) p = record p {
  format_settings = updated;
  format_save_success = true;
  format_saving = false;
}
format_save_ends (failure f) p = record p {
  format_error = some (detail_or "Failed to save format settings" f);
  format_saving = false;
}

pub data FormatChange : Type 0 where
  currency_code decimal_separator thousands_separator date_format timezone : Text → FormatChange
  currency_symbol_position : Position → FormatChange
  price_decimal_places quantity_decimal_places : ℕ → FormatChange

unfoldable pub update_format_setting : FormatChange → FormatSettings → FormatSettings
update_format_setting (currency_code v) s = record s { currency_code = v }
update_format_setting (currency_symbol_position v) s = record s { currency_symbol_position = v }
update_format_setting (price_decimal_places v) s = record s { price_decimal_places = v }
update_format_setting (decimal_separator v) s = record s { decimal_separator = v }
update_format_setting (thousands_separator v) s = record s { thousands_separator = v }
update_format_setting (quantity_decimal_places v) s = record s { quantity_decimal_places = v }
update_format_setting (date_format v) s = record s { date_format = v }
update_format_setting (timezone v) s = record s { timezone = v }

-- The call that handleCancelScheduledChange makes ends; if it was accepted, a load follows.
unfoldable pub cancel_ends : Option Failure → SettingsPage → SettingsPage
unfolding load_data
cancel_ends none p = load_data p
cancel_ends (some f) p = record p {
  error = some (detail_or "Failed to cancel scheduled change" f);
  cancelling_schedule = false;
}
