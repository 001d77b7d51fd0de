-- ===== src/Tests/Upgrades.antt =====
-- The upgrade wizard at concrete pages.
use harmony_saas_multitenanc.Base.{true, false, ◌≡◌, refl, none, some, [], ◌∷◌, Outcome, returned}
use harmony_saas_multitenanc.Payment.{
  PublicTier, PublicPaymentMethod, PaymentMethodType, UpgradeRequest, UpgradeRequestStatus,
  BillingPeriod, RequestType,
}
use harmony_saas_multitenanc.Upgrade.{
  UpgradePage, Submission, update_request, first_render, active_request, is_active, tier_of,
  method_of, start_edit_mode, can_proceed, methods_enabled, is_free, can_proceed_at,
}
use harmony_saas_multitenanc.Upgrade.Controls.{
  Event, handle, enabled, next_step, submitted_by_next, step_after, shows_wizard, available_tiers,
}
use harmony_saas_multitenanc.Upgrade.Reachable.{Reach, start, after, HasTier, Reach-HasTier}
use harmony_saas_multitenanc.Upgrade.Submitting.{Submitted, submission_outcome}
use harmony_saas_multitenanc.Upgrade.Editing.{to_confirm, edit_unchanged}
use harmony_saas_multitenanc.Upgrade.Reload.{
  Reloaded, opened, answered, handle_all, edit_after_reload,
}

abbrev pro_tier : PublicTier
pro_tier = record {
  code = "pro";
  display_name = "Pro";
  description = none;
  price_monthly = 100;
  price_yearly = 1000;
  currency = "IDR";
  max_users = 50;
  max_branches = 5;
  max_storage_gb = 10;
  max_users_display = "50";
  max_branches_display = "5";
  max_storage_display = "10 GB";
  features = [];
  sort_order = 2;
  is_recommended = true;
  trial_days = 0;
}

abbrev bank : PublicPaymentMethod
bank = record {
  id = "m1";
  code = "bank";
  name = "Bank";
  type_of = PaymentMethodType.bank_transfer;
  bank_name = some "Bank";
  account_number = some "1";
  account_name = none;
  wallet_type = none;
  qris_image_url = none;
  instructions = none;
}

abbrev pub open_request : UpgradeRequest
open_request = record {
  id = "r1";
  request_number = "UPG-1";
  tenant_id = "t1";
  request_type = RequestType.upgrade;
  current_tier_code = "basic";
  target_tier_code = "pro";
  current_tier_name = none;
  target_tier_name = none;
  billing_period = BillingPeriod.yearly;
  amount = 1000;
  currency = "IDR";
  original_amount = 1000;
  proration_credit = 0;
  proration_charge = 0;
  days_remaining = 0;
  effective_date = none;
  payment_method_id = some "m1";
  payment_method_name = none;
  payment_proof_file_id = none;
  payment_proof_url = none;
  payment_proof_uploaded_at = none;
  status = UpgradeRequestStatus.pending;
  reviewed_by_id = none;
  reviewed_by_name = none;
  reviewed_at = none;
  review_notes = none;
  rejection_reason = none;
  expires_at = none;
  applied_at = none;
  requested_by_id = none;
  requested_by_name = none;
  created_at = "2026-01-01";
  updated_at = none;
}

-- A page without requests, and the page with an active one.
abbrev new_page : UpgradePage
new_page = first_render (some []) (some (pro_tier ∷ [])) none

abbrev active_page : UpgradePage
active_page = first_render (some (open_request ∷ [])) (some (pro_tier ∷ [])) (some (bank ∷ []))

-- The wizard of a new request, gone through to its last step.
abbrev chosen_page : UpgradePage
chosen_page = handle (Event.click_tier pro_tier) new_page

abbrev billing_page : UpgradePage
billing_page = handle Event.click_next chosen_page

abbrev payment_page : UpgradePage
payment_page = handle (Event.methods_arrive (bank ∷ [])) (handle Event.click_next billing_page)

abbrev confirm_page : UpgradePage
confirm_page = handle Event.click_next (handle (Event.click_method "m1") payment_page)

confirm_Reach : Reach "basic" confirm_page
unfolding handle enabled first_render shows_wizard available_tiers active_request is_active
    can_proceed can_proceed_at next_step step_after methods_enabled is_free
confirm_Reach =
    after Event.click_next
      (after (Event.click_method "m1")
        (after (Event.methods_arrive (bank ∷ []))
          (after Event.click_next
            (after Event.click_next
              (after (Event.click_tier pro_tier) (start (some []) (some (pro_tier ∷ [])) none) refl)
              refl)
            refl)
          refl)
        refl)
      refl

Reach-HasTier_example : HasTier confirm_page
Reach-HasTier_example = Reach-HasTier "basic" confirm_page confirm_Reach

submission_outcome_example :
    (o : Outcome Submission) × (submitted_by_next confirm_page ≡ some o) × Submitted confirm_page o
unfolding handle first_render next_step step_after
submission_outcome_example = submission_outcome "basic" confirm_page confirm_Reach refl

edit_unchanged_example :
    let q = start_edit_mode active_page in
    (can_proceed q ≡ true)
    × (can_proceed (next_step q) ≡ true)
    × (can_proceed (next_step (next_step q)) ≡ true)
    × (open_request.payment_method_id ≡ some bank.id)
    × (submitted_by_next (to_confirm q)
        ≡ some (
            returned (
              update_request "r1" (record {
                target_tier_code = "pro";
                billing_period = BillingPeriod.yearly;
                payment_method_id = "m1";
              }))))
unfolding first_render active_request is_active tier_of method_of
edit_unchanged_example = edit_unchanged active_page open_request pro_tier bank refl refl refl

abbrev reloaded_page : UpgradePage
reloaded_page =
    handle (Event.requests_arrive (open_request ∷ []))
      (handle (Event.tiers_arrive (pro_tier ∷ [])) (first_render none none none))

reloaded : Reloaded reloaded_page
reloaded =
    answered (Event.requests_arrive (open_request ∷ []))
      (answered (Event.tiers_arrive (pro_tier ∷ [])) (opened none none) refl) refl

-- The tier has arrived before the requests.
edit_after_reload_example :
    let q = handle Event.click_edit reloaded_page in
    (methods_enabled reloaded_page ≡ false)
    × (methods_enabled q ≡ true)
    × (q.selected_tier ≡ some pro_tier)
    × (q.billing_period ≡ BillingPeriod.yearly)
    × ((handle_all (Event.methods_arrive (bank ∷ []) ∷ []) q).selected_payment_method ≡ none)
unfolding handle first_render active_request is_active tier_of
edit_after_reload_example =
    edit_after_reload reloaded_page open_request (Event.methods_arrive (bank ∷ []) ∷ []) reloaded
      refl refl
