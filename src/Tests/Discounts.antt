-- ===== src/Tests/Discounts.antt =====
-- The dialogs of coupons at a concrete coupon.
use harmony_saas_multitenanc.Base.{◌≡◌, refl, true, false, none, some, [], ◌∷◌}
use harmony_saas_multitenanc.Coupons.{
  Coupon, DiscountType, update_coupon, create_coupon, update_of_form, form_of_coupon, edit_clicked,
  open_create, settled, on_event, handle_update, handle_create, first_page,
}
use harmony_saas_multitenanc.Coupons.Dialogs.{run_events, edit_leaks_into_create}

abbrev spring : Coupon
spring = record {
  id = "c1";
  code = "SPRING";
  name = "Spring";
  description = none;
  discount_type = DiscountType.percentage;
  discount_value = 10;
  currency = "IDR";
  max_redemptions = some 100;
  current_redemptions = 3;
  max_redemptions_per_tenant = 1;
  valid_for_tiers = none;
  valid_for_billing_periods = none;
  valid_from = none;
  valid_until = none;
  first_time_only = false;
  new_customers_only = false;
  duration_months = some 3;
  minimum_amount = none;
  is_active = true;
  is_valid = true;
  is_expired = false;
  is_maxed_out = false;
  remaining_redemptions = some 97;
  created_at = "2026-01-01";
  updated_at = none;
}

edit_leaks_into_create_example :
    (handle_update (on_event (edit_clicked spring) first_page)
      ≡ some (update_coupon "c1" (update_of_form (form_of_coupon spring))))
    × (handle_create (
          on_event open_create (
            run_events
              (settled (update_coupon "c1" (update_of_form (form_of_coupon spring))) true ∷ [])
              (on_event (edit_clicked spring) first_page)))
        ≡ create_coupon (form_of_coupon spring))
    × ((form_of_coupon spring).code ≡ spring.code)
edit_leaks_into_create_example =
    edit_leaks_into_create spring first_page
      (settled (update_coupon "c1" (update_of_form (form_of_coupon spring))) true ∷ []) refl
