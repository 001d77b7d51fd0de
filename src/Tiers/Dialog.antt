-- ===== src/Tiers/Dialog.antt =====
-- frontend/src/app/(auth)/admin/tiers/page.tsx: the state of the page and its handlers. A handler that
-- submits returns the mutation that it starts; what the server answers is an argument of `settle`.
use harmony_saas_multitenanc.Base.{ℕ, String, Bool, true, false, Option, none, some, List, []}
use harmony_saas_multitenanc.Payment.{SubscriptionTier}
use harmony_saas_multitenanc.Tiers.{select_valid}

-- `formData`, a `Partial<SubscriptionTierCreate>`: `code` is there only in a new tier.
pub record Form : Type 0 where
  pub code : Option String
  pub display_name : String
  pub description : String
  pub price_monthly : ℕ
  pub price_yearly : ℕ
  pub currency : String
  pub max_users : ℕ
  pub max_branches : ℕ
  pub max_storage_gb : ℕ
  pub features : List String
  pub sort_order : ℕ
  pub is_public : Bool
  pub is_recommended : Bool
  pub trial_days : ℕ

unfoldable pub empty_form : Form
empty_form = record {
  code = some "";
  display_name = "";
  description = "";
  price_monthly = 0;
  price_yearly = 0;
  currency = "IDR";
  max_users = 5;
  max_branches = 1;
  max_storage_gb = 1;
  features = [];
  sort_order = 0;
  is_public = true;
  is_recommended = false;
  trial_days = 0;
}

pub record TiersPage : Type 0 where
  pub is_dialog_open : Bool
  pub is_delete_dialog_open : Bool
  pub selected_tier : Option SubscriptionTier
  pub form_data : Form
  pub selected_features : List String

unfoldable pub first_render : TiersPage
first_render = record {
  is_dialog_open = false;
  is_delete_dialog_open = false;
  selected_tier = none;
  form_data = empty_form;
  selected_features = [];
}

pub data Mutation : Type 0 where
  create : Form → Mutation
  update : String → Form → Mutation
  remove : String → Mutation

unfoldable pub reset_form : TiersPage → TiersPage
reset_form p = record p { form_data = empty_form; selected_features = []; selected_tier = none }

unfoldable pub open_create_dialog : TiersPage → TiersPage
open_create_dialog p = record (reset_form p) { is_dialog_open = true }

-- `text || ''`
abbrev or_blank : Option String → String
or_blank none = ""
or_blank (some s) = s

unfoldable pub form_of : SubscriptionTier → Form
form_of tier = record {
  code = none;
  display_name = tier.display_name;
  description = or_blank tier.description;
  price_monthly = tier.price_monthly;
  price_yearly = tier.price_yearly;
  currency = tier.currency;
  max_users = tier.max_users;
  max_branches = tier.max_branches;
  max_storage_gb = tier.max_storage_gb;
  features = tier.features;
  sort_order = tier.sort_order;
  is_public = tier.is_public;
  is_recommended = tier.is_recommended;
  trial_days = tier.trial_days;
}

unfoldable pub open_edit_dialog : SubscriptionTier → TiersPage → TiersPage
open_edit_dialog tier p = record p {
  selected_tier = some tier;
  form_data = form_of tier;
  selected_features = select_valid tier.features;
  is_dialog_open = true;
}

unfoldable pub open_delete_dialog : SubscriptionTier → TiersPage → TiersPage
open_delete_dialog tier p = record p { selected_tier = some tier; is_delete_dialog_open = true }

unfoldable pub handle_submit : TiersPage → Mutation
handle_submit p =
    let submit_data = record p.form_data { features = p.selected_features } in
    elim p.selected_tier [ some tier ↦ update tier.id submit_data | none ↦ create submit_data ]

-- the click on the button of the dialog that asks before a tier is deleted
unfoldable pub handle_delete : TiersPage → Option Mutation
handle_delete p = elim p.selected_tier [ some tier ↦ some (remove tier.id) | none ↦ none ]

-- `onSuccess` of the three mutations; an error changes nothing of the page
unfoldable pub settle : Mutation → Bool → TiersPage → TiersPage
settle m false p = p
settle (create data') true p = reset_form (record p { is_dialog_open = false })
settle (update id data') true p = reset_form (record p { is_dialog_open = false })
settle (remove id) true p = record p { is_delete_dialog_open = false; selected_tier = none }
