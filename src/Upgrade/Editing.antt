-- ===== src/Upgrade/Editing.antt =====
-- frontend/src/app/(dashboard)/upgrade/page.tsx: the edit of an active request.
use harmony_saas_multitenanc.Base.{
  String, Bool, true, false, ◌≡◌, refl, Option, none, some, arith, ◌||◌, ◌==◌, eq_iff, find-holds,
  returned,
}
use harmony_saas_multitenanc.Payment.{PublicTier, PublicPaymentMethod, UpgradeRequest}
use harmony_saas_multitenanc.Upgrade.{
  Step, Mode, UpgradePage, update_request, active_request, tier_of, method_of, start_edit_mode,
  edit_request, update_mutation, update_of, can_proceed, can_proceed_at, is_text, or_empty,
}
use harmony_saas_multitenanc.Upgrade.Controls.{next_step, step_after, submitted_by_next}

-- Three clicks on the button, from the first step to the last.
abbrev pub to_confirm : UpgradePage → UpgradePage
to_confirm p = next_step (next_step (next_step p))

tier_code :
    (r : UpgradeRequest) (p : UpgradePage) (t : PublicTier)
    → tier_of r p ≡ some t
    → t.code ≡ r.target_tier_code
unfolding tier_of
tier_code r p t e = ground (
  arith,
  eq_iff t.code r.target_tier_code,
  find-holds (λ (t : PublicTier). t.code == r.target_tier_code) (or_empty p.tiers_data) t e,
)

text_holds : (o : Option String) (s : String) → is_text o s ≡ true → o ≡ some s
text_holds none s h = ground arith
text_holds (some u) s h = ground (arith, eq_iff s u)

method_id :
    (r : UpgradeRequest) (p : UpgradePage) (m : PublicPaymentMethod)
    → method_of r p ≡ some m
    → r.payment_method_id ≡ some m.id
unfolding method_of
method_id r p m e = text_holds r.payment_method_id m.id (
    find-holds (λ (m : PublicPaymentMethod). is_text r.payment_method_id m.id)
      (or_empty p.payment_methods) m e)

-- The page on which the edit starts.
abbrev prefilled : UpgradePage → UpgradeRequest → PublicTier → PublicPaymentMethod → UpgradePage
prefilled p r t m = record p {
  selected_tier = some t;
  billing_period = r.billing_period;
  selected_payment_method = some m;
  mode = Mode.edit;
  step = Step.tier;
}

start_edit-prefilled :
    (p : UpgradePage) (r : UpgradeRequest) (t : PublicTier) (m : PublicPaymentMethod)
    → active_request p ≡ some r
    → tier_of r p ≡ some t
    → method_of r p ≡ some m
    → start_edit_mode p ≡ prefilled p r t m
unfolding start_edit_mode edit_request
start_edit-prefilled p r t m a e f = rw (a, e, f) refl

can_proceed-payment : (q : Bool) → (q || true) ≡ true
can_proceed-payment true = refl
can_proceed-payment false = refl

-- The edit of an active request whose tier and payment method are loaded goes through to the last
-- step without another choice, and there it sends an update of that request with the tier, the period
-- and the payment method that it has.
pub edit_unchanged :
    (p : UpgradePage) (r : UpgradeRequest) (t : PublicTier) (m : PublicPaymentMethod)
    → active_request p ≡ some r
    → tier_of r p ≡ some t
    → method_of r p ≡ some m
    → let q = start_edit_mode p in
      (can_proceed q ≡ true)
      × (can_proceed (next_step q) ≡ true)
      × (can_proceed (next_step (next_step q)) ≡ true)
      × (r.payment_method_id ≡ some m.id)
      × (submitted_by_next (to_confirm q)
          ≡ some (
              returned (
                update_request r.id (record {
                  target_tier_code = r.target_tier_code;
                  billing_period = r.billing_period;
                  payment_method_id = m.id;
                }))))
unfolding can_proceed can_proceed_at next_step step_after submitted_by_next update_mutation
    update_of active_request
edit_unchanged p r t m a e f =
    rw (start_edit-prefilled p r t m a e f)
      (refl, refl, can_proceed-payment _, method_id r p m f, rw (a, tier_code r p t e) refl)
