-- ===== src/Coupons.antt =====
-- frontend/src/types/coupon.ts and frontend/src/app/(auth)/admin/coupons/page.tsx: the dialogs of coupons. Amounts are
-- whole numbers. What the user writes into the form is an event with the form that results.
pub mod Dialogs
use harmony_saas_multitenanc.Base.{
  ℕ, zero, suc, String, Bool, true, false, Option, none, some, List, ◌==◌, if◌then◌else◌,
}

pub data DiscountType : Type 0 where
  percentage fixed_amount trial_extension : DiscountType

pub record Coupon : Type 0 where
  pub id : String
  pub code : String
  pub name : String
  pub description : Option String
  pub discount_type : DiscountType
  pub discount_value : ℕ
  pub currency : String
  pub max_redemptions : Option ℕ
  pub current_redemptions : ℕ
  pub max_redemptions_per_tenant : ℕ
  pub valid_for_tiers : Option (List String)
  pub valid_for_billing_periods : Option (List String)
  pub valid_from : Option String
  pub valid_until : Option String
  pub first_time_only : Bool
  pub new_customers_only : Bool
  pub duration_months : Option ℕ
  pub minimum_amount : Option ℕ
  pub is_active : Bool
  pub is_valid : Bool
  pub is_expired : Bool
  pub is_maxed_out : Bool
  pub remaining_redemptions : Option ℕ
  pub created_at : String
  pub updated_at : Option String

pub record CouponCreate : Type 0 where
  pub code : String
  pub name : String
  pub description : Option String
  pub discount_type : DiscountType
  pub discount_value : ℕ
  pub currency : Option String
  pub max_redemptions : Option ℕ
  pub max_redemptions_per_tenant : Option ℕ
  pub valid_for_tiers : Option (List String)
  pub valid_for_billing_periods : Option (List String)
  pub valid_from : Option String
  pub valid_until : Option String
  pub first_time_only : Option Bool
  pub new_customers_only : Option Bool
  pub duration_months : Option ℕ
  pub minimum_amount : Option ℕ

pub record CouponUpdate : Type 0 where
  pub name : Option String
  pub description : Option String
  pub max_redemptions : Option ℕ
  pub max_redemptions_per_tenant : Option ℕ
  pub valid_for_tiers : Option (List String)
  pub valid_for_billing_periods : Option (List String)
  pub valid_from : Option String
  pub valid_until : Option String
  pub first_time_only : Option Bool
  pub new_customers_only : Option Bool
  pub duration_months : Option ℕ
  pub minimum_amount : Option ℕ
  pub is_active : Option Bool

unfoldable pub empty_coupon : CouponCreate
empty_coupon = record {
  code = "";
  name = "";
  description = some "";
  discount_type = DiscountType.percentage;
  discount_value = 0;
  currency = some "IDR";
  max_redemptions = none;
  max_redemptions_per_tenant = some 1;
  valid_for_tiers = none;
  valid_for_billing_periods = none;
  valid_from = none;
  valid_until = none;
  first_time_only = some false;
  new_customers_only = some false;
  duration_months = none;
  minimum_amount = none;
}

pub record CouponsPage : Type 0 where
  pub is_create_dialog_open : Bool
  pub is_edit_dialog_open : Bool
  pub is_delete_dialog_open : Bool
  pub is_stats_dialog_open : Bool
  pub selected_coupon : Option Coupon
  pub form_data : CouponCreate

unfoldable pub first_page : CouponsPage
first_page = record {
  is_create_dialog_open = false;
  is_edit_dialog_open = false;
  is_delete_dialog_open = false;
  is_stats_dialog_open = false;
  selected_coupon = none;
  form_data = empty_coupon;
}

-- `resetForm`
unfoldable pub reset_coupon : CouponsPage → CouponsPage
reset_coupon p = record p { form_data = empty_coupon }

-- `number || undefined` and `text || undefined`
unfoldable pub number_or_undefined : Option ℕ → Option ℕ
number_or_undefined none = none
number_or_undefined (some zero) = none
number_or_undefined (some (suc n)) = some (suc n)

unfoldable pub text_or_undefined : Option String → Option String
text_or_undefined none = none
text_or_undefined (some s) = if s == "" then none else some s

abbrev or_blank : Option String → String
or_blank none = ""
or_blank (some s) = s

unfoldable pub form_of_coupon : Coupon → CouponCreate
form_of_coupon c = record {
  code = c.code;
  name = c.name;
  description = some (or_blank c.description);
  discount_type = c.discount_type;
  discount_value = c.discount_value;
  currency = some c.currency;
  max_redemptions = number_or_undefined c.max_redemptions;
  max_redemptions_per_tenant = some c.max_redemptions_per_tenant;
  valid_for_tiers = none;
  valid_for_billing_periods = none;
  valid_from = text_or_undefined c.valid_from;
  valid_until = text_or_undefined c.valid_until;
  first_time_only = some c.first_time_only;
  new_customers_only = some c.new_customers_only;
  duration_months = number_or_undefined c.duration_months;
  minimum_amount = number_or_undefined c.minimum_amount;
}

-- `openEditDialog`
unfoldable pub open_edit : Coupon → CouponsPage → CouponsPage
open_edit c p = record p {
  selected_coupon = some c;
  form_data = form_of_coupon c;
  is_edit_dialog_open = true;
}

-- The mutations that the handlers start.
pub data CouponMutation : Type 0 where
  create_coupon : CouponCreate → CouponMutation
  update_coupon : String → CouponUpdate → CouponMutation
  delete_coupon : String → CouponMutation

unfoldable pub handle_create : CouponsPage → CouponMutation
handle_create p = create_coupon p.form_data

unfoldable pub update_of_form : CouponCreate → CouponUpdate
update_of_form f = record {
  name = some f.name;
  description = f.description;
  max_redemptions = f.max_redemptions;
  max_redemptions_per_tenant = f.max_redemptions_per_tenant;
  valid_for_tiers = none;
  valid_for_billing_periods = none;
  valid_from = f.valid_from;
  valid_until = f.valid_until;
  first_time_only = f.first_time_only;
  new_customers_only = f.new_customers_only;
  duration_months = f.duration_months;
  minimum_amount = f.minimum_amount;
  is_active = none;
}

unfoldable pub handle_update : CouponsPage → Option CouponMutation
handle_update p = elim p.selected_coupon [
  | none ↦ none
  | some c ↦ some (update_coupon c.id (update_of_form p.form_data))
]

unfoldable pub handle_delete_coupon : CouponsPage → Option CouponMutation
handle_delete_coupon p = elim p.selected_coupon [ none ↦ none | some c ↦ some (delete_coupon c.id) ]

-- `onSuccess` of the three mutations; an error changes nothing of the page
unfoldable pub settle_coupon : CouponMutation → Bool → CouponsPage → CouponsPage
settle_coupon m false p = p
settle_coupon (create_coupon f) true p = reset_coupon (record p { is_create_dialog_open = false })
settle_coupon (update_coupon i u) true p = record p {
  is_edit_dialog_open = false;
  selected_coupon = none;
}
settle_coupon (delete_coupon i) true p = record p {
  is_delete_dialog_open = false;
  selected_coupon = none;
}

-- The buttons that open and close the dialogs, and the fields of the form.
pub data CouponEvent : Type 0 where
  open_create close_create close_edit close_delete close_stats : CouponEvent
  edit_clicked delete_clicked stats_clicked : Coupon → CouponEvent
  form_changed : CouponCreate → CouponEvent
  settled : CouponMutation → Bool → CouponEvent

unfoldable pub on_event : CouponEvent → CouponsPage → CouponsPage
on_event open_create p = record p { is_create_dialog_open = true }
on_event close_create p = record p { is_create_dialog_open = false }
on_event close_edit p = record p { is_edit_dialog_open = false }
on_event close_delete p = record p { is_delete_dialog_open = false }
on_event close_stats p = record p { is_stats_dialog_open = false }
on_event (stats_clicked c) p = record p { selected_coupon = some c; is_stats_dialog_open = true }
on_event (edit_clicked c) p = open_edit c p
on_event (delete_clicked c) p = record p { selected_coupon = some c; is_delete_dialog_open = true }
on_event (form_changed f) p = record p { form_data = f }
on_event (settled m ok) p = settle_coupon m ok p
