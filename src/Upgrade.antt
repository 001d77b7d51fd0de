-- ===== src/Upgrade.antt =====
-- frontend/src/app/(dashboard)/upgrade/page.tsx: the page on which a tenant asks for another tier. A click that
-- submits gives the request that is sent, or `thrown` where the evaluation of its arguments fails.
pub mod Controls
pub mod Reachable
pub mod Submitting
pub mod Editing
pub mod Reload
pub mod Proof
use harmony_saas_multitenanc.Base.{
  ℕ, String, Bool, true, false, not, Option, none, some, List, [], ◌∷◌, ◌==◌, ◌&&◌, ◌||◌,
  if◌then◌else◌, Outcome, returned, thrown, is_some, find,
}
use harmony_saas_multitenanc.Payment.{
  BillingPeriod, UpgradeRequestStatus, RequestType, PublicTier, PublicPaymentMethod, UpgradeRequest,
  UpgradeRequestCreate, UpgradeRequestUpdate, UpgradePreview,
}

pub data Step : Type 0 where
  tier billing payment confirm : Step

pub data Mode : Type 0 where
  create edit : Mode

-- The state of the page, with what the queries hold: none before they are answered.
pub record UpgradePage : Type 0 where
  pub mode : Mode
  pub step : Step
  pub selected_tier : Option PublicTier
  pub billing_period : BillingPeriod
  pub selected_payment_method : Option PublicPaymentMethod
  pub show_cancel_dialog : Bool
  pub preview : Option UpgradePreview
  pub existing_requests : Option (List UpgradeRequest)
  pub tiers_data : Option (List PublicTier)
  pub payment_methods : Option (List PublicPaymentMethod)
  pub is_pending : Bool

unfoldable pub first_render :
    Option (List UpgradeRequest)
    → Option (List PublicTier)
    → Option (List PublicPaymentMethod)
    → UpgradePage
first_render requests tiers methods = record {
  mode = Mode.create;
  step = Step.tier;
  selected_tier = none;
  billing_period = BillingPeriod.monthly;
  selected_payment_method = none;
  show_cancel_dialog = false;
  preview = none;
  existing_requests = requests;
  tiers_data = tiers;
  payment_methods = methods;
  is_pending = false;
}

unfoldable pub is_active : UpgradeRequestStatus → Bool
is_active UpgradeRequestStatus.pending = true
is_active UpgradeRequestStatus.payment_uploaded = true
is_active UpgradeRequestStatus.under_review = true
is_active UpgradeRequestStatus.approved = false
is_active UpgradeRequestStatus.rejected = false
is_active UpgradeRequestStatus.cancelled = false
is_active UpgradeRequestStatus.expired = false

-- `list || []`, and a list read with `?.` before a search
abbrev pub or_empty {ℓ} : {A : Type ℓ} → Option (List A) → List A
or_empty none = []
or_empty (some xs) = xs

unfoldable pub active_request : UpgradePage → Option UpgradeRequest
active_request p = find (λ (r : UpgradeRequest). is_active r.status) (or_empty p.existing_requests)

abbrev pub is_edit : Mode → Bool
is_edit Mode.create = false
is_edit Mode.edit = true

abbrev pub is_tier : Step → Bool
is_tier Step.tier = true
is_tier Step.billing = false
is_tier Step.payment = false
is_tier Step.confirm = false

abbrev pub is_payment : Step → Bool
is_payment Step.tier = false
is_payment Step.billing = false
is_payment Step.payment = true
is_payment Step.confirm = false

-- `enabled` of the queries of tiers and of payment methods
unfoldable pub tiers_enabled : UpgradePage → Bool
tiers_enabled p = not (is_some (active_request p)) || is_edit p.mode

unfoldable pub methods_enabled : UpgradePage → Bool
methods_enabled p = is_payment p.step || is_edit p.mode

unfoldable pub reset_wizard : UpgradePage → UpgradePage
reset_wizard p = record p {
  step = Step.tier;
  selected_tier = none;
  billing_period = BillingPeriod.monthly;
  selected_payment_method = none;
}

-- `if (found) set(found)`
abbrev pub found_or {ℓ} : {A : Type ℓ} → Option A → Option A → Option A
found_or none old = old
found_or (some x) old = some x

abbrev is_text : Option String → String → Bool
is_text none t = false
is_text (some s) t = t == s

unfoldable pub tier_of : UpgradeRequest → UpgradePage → Option PublicTier
tier_of r p = find (λ (t : PublicTier). t.code == r.target_tier_code) (or_empty p.tiers_data)

unfoldable pub method_of : UpgradeRequest → UpgradePage → Option PublicPaymentMethod
method_of r p =
    find (λ (m : PublicPaymentMethod). is_text r.payment_method_id m.id)
      (or_empty p.payment_methods)

-- `startEditMode`, of the active request
unfoldable pub edit_request : Option UpgradeRequest → UpgradePage → UpgradePage
edit_request none p = p
edit_request (some r) p = record p {
  selected_tier = found_or (tier_of r p) p.selected_tier;
  billing_period = r.billing_period;
  selected_payment_method = found_or (method_of r p) p.selected_payment_method;
  mode = Mode.edit;
  step = Step.tier;
}

unfoldable pub start_edit_mode : UpgradePage → UpgradePage
start_edit_mode p = edit_request (active_request p) p

unfoldable pub cancel_edit_mode : UpgradePage → UpgradePage
cancel_edit_mode p = reset_wizard (record p { mode = Mode.create })

-- `preview?.requires_payment === false`, and its use as a condition
unfoldable pub is_free : Option UpgradePreview → Bool
is_free none = false
is_free (some q) = not q.requires_payment

unfoldable pub is_paid : Option UpgradePreview → Bool
is_paid none = false
is_paid (some q) = q.requires_payment

unfoldable pub can_proceed_at : Step → UpgradePage → Bool
can_proceed_at Step.tier p = is_some p.selected_tier
can_proceed_at Step.billing p = true
can_proceed_at Step.payment p = is_free p.preview || is_some p.selected_payment_method
can_proceed_at Step.confirm p = true

unfoldable pub can_proceed : UpgradePage → Bool
can_proceed p = can_proceed_at p.step p

pub data Submission : Type 0 where
  create_request : UpgradeRequestCreate → Submission
  update_request : String → UpgradeRequestUpdate → Submission
  cancel_request : String → Submission

-- `method?.id || undefined`
abbrev pub optional_id : Option PublicPaymentMethod → Option String
optional_id none = none
optional_id (some m) = if m.id == "" then none else some m.id

-- `payment_method_id` of a new request
unfoldable pub created_method : Bool → Option PublicPaymentMethod → Outcome (Option String)
created_method true none = thrown
created_method true (some m) = returned (some m.id)
created_method false m = returned (optional_id m)

unfoldable pub request_of :
    Option PublicTier → BillingPeriod → Outcome (Option String) → Outcome Submission
request_of none b method_id = thrown
request_of (some t) b thrown = thrown
request_of (some t) b (returned method_id) = returned (
    create_request
      (record { target_tier_code = t.code; billing_period = b; payment_method_id = method_id }))

-- `mutationFn` of `createMutation`
unfoldable pub create_mutation : UpgradePage → Outcome Submission
create_mutation p =
    request_of p.selected_tier p.billing_period
      (created_method (is_paid p.preview) p.selected_payment_method)

unfoldable pub update_of :
    Option UpgradeRequest
    → Option PublicTier
    → BillingPeriod
    → Option PublicPaymentMethod
    → Outcome Submission
update_of none t b m = thrown
update_of (some r) none b m = thrown
update_of (some r) (some t) b none = thrown
update_of (some r) (some t) b (some m) = returned (
    update_request r.id
      (record { target_tier_code = t.code; billing_period = b; payment_method_id = m.id }))

-- `mutationFn` of `updateMutation`
unfoldable pub update_mutation : UpgradePage → Outcome Submission
update_mutation p =
    update_of (active_request p) p.selected_tier p.billing_period p.selected_payment_method

-- `mutationFn` of `cancelMutation`
unfoldable pub cancel_mutation : UpgradePage → Outcome Submission
cancel_mutation p = elim (active_request p) [
  | none ↦ thrown
  | some r ↦ returned (cancel_request r.id)
]
