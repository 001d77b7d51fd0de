-- ===== src/Upgrade/Controls.antt =====
-- frontend/src/app/(dashboard)/upgrade/page.tsx: the buttons and the other controls of the page, when each can be
-- used, and what the answers of the server change.
use harmony_saas_multitenanc.Base.{
  ℕ, String, Bool, true, false, not, Option, none, some, List, [], ◌∷◌, ◌==◌, ◌&&◌, ◌||◌,
  if◌then◌else◌, Outcome, is_some, find, any,
}
use harmony_saas_multitenanc.Payment.{
  BillingPeriod, UpgradeRequestStatus, PublicTier, PublicPaymentMethod, UpgradeRequest,
  UpgradePreview,
}
use harmony_saas_multitenanc.Upgrade.{
  Step, Mode, UpgradePage, Submission, active_request, can_proceed, create_mutation,
  update_mutation, reset_wizard, start_edit_mode, cancel_edit_mode, is_edit, is_tier, is_payment,
  or_empty,
}

-- What `nextStep` does: the next step, or the start of a mutation.
unfoldable pub step_after : Step → Step
step_after Step.tier = Step.billing
step_after Step.billing = Step.payment
step_after Step.payment = Step.confirm
step_after Step.confirm = Step.confirm

abbrev pub is_confirm : Step → Bool
is_confirm Step.tier = false
is_confirm Step.billing = false
is_confirm Step.payment = false
is_confirm Step.confirm = true

unfoldable pub next_step : UpgradePage → UpgradePage
next_step p = record p { step = step_after p.step; is_pending = is_confirm p.step || p.is_pending }

unfoldable pub submitted_by_next : UpgradePage → Option (Outcome Submission)
submitted_by_next p =
    if is_confirm p.step
    then some (if is_edit p.mode then update_mutation p else create_mutation p)
    else none

unfoldable pub step_before : Step → Step
step_before Step.tier = Step.tier
step_before Step.billing = Step.tier
step_before Step.payment = Step.billing
step_before Step.confirm = Step.payment

unfoldable pub prev_step : UpgradePage → UpgradePage
prev_step p = record p { step = step_before p.step }

-- The place of the step in `steps`.
unfoldable pub current_step_index : Step → ℕ
current_step_index Step.tier = 0
current_step_index Step.billing = 1
current_step_index Step.payment = 2
current_step_index Step.confirm = 3

-- `onSuccess` and `onError` of the mutation that creates, and of the one that updates
unfoldable pub settle_create : Bool → UpgradePage → UpgradePage
settle_create true p = reset_wizard (record p { is_pending = false })
settle_create false p = record p { is_pending = false }

unfoldable pub settle_update : Bool → UpgradePage → UpgradePage
settle_update true p = reset_wizard (record p { mode = Mode.create; is_pending = false })
settle_update false p = record p { is_pending = false }

unfoldable pub settle_cancel : Bool → UpgradePage → UpgradePage
settle_cancel true p = record p { show_cancel_dialog = false }
settle_cancel false p = p

-- The arguments of the call that the effect makes, if it makes one.
unfoldable pub wanted_preview : UpgradePage → Option (String × BillingPeriod)
wanted_preview p = elim p.selected_tier [
  | none ↦ none
  | some t ↦ if is_tier p.step then none else some (t.code, p.billing_period)
]

unfoldable pub available_tiers : String → UpgradePage → List PublicTier
available_tiers current p = others (or_empty p.tiers_data)
  where
    others : List PublicTier → List PublicTier
    others [] = []
    others (t ∷ ts) = let rest = others ts in if t.code == current then rest else t ∷ rest

-- The view of the active request, and that of the wizard.
unfoldable pub shows_active_request : UpgradePage → Bool
shows_active_request p =
    is_some p.existing_requests && (is_some (active_request p) && not (is_edit p.mode))

unfoldable pub shows_wizard : UpgradePage → Bool
shows_wizard p =
    is_some p.existing_requests && not (is_some (active_request p) && not (is_edit p.mode))

abbrev pub is_pending_request : Option UpgradeRequest → Bool
is_pending_request none = false
is_pending_request (some r) = elim r.status [ UpgradeRequestStatus.pending ↦ true | _ ↦ false ]

pub data Event : Type 0 where
  click_tier : PublicTier → Event
  click_period : BillingPeriod → Event
  click_method : String → Event
  click_next click_back click_edit click_cancel_edit : Event
  click_cancel_request keep_request : Event
  preview_arrives : Option UpgradePreview → Event
  create_ends update_ends cancel_ends : Bool → Event
  requests_arrive : List UpgradeRequest → Event
  tiers_arrive : List PublicTier → Event
  methods_arrive : List PublicPaymentMethod → Event

-- Whether an event can happen; the tenant's own tier is the first argument.
unfoldable pub enabled : String → Event → UpgradePage → Bool
enabled current (Event.click_tier t) p =
    shows_wizard p
    && (is_tier p.step && any (λ (u : PublicTier). u.code == t.code) (available_tiers current p))
enabled current (Event.click_period b) p =
    shows_wizard p && (elim p.step [ Step.billing ↦ true | _ ↦ false ] && is_some p.selected_tier)
enabled current (Event.click_method m) p = shows_wizard p && is_payment p.step
enabled current Event.click_next p = shows_wizard p && (can_proceed p && not p.is_pending)
enabled current Event.click_back p = shows_wizard p && not (is_tier p.step)
enabled current Event.click_edit p = shows_active_request p && is_pending_request (active_request p)
enabled current Event.click_cancel_edit p = shows_wizard p && (is_tier p.step && is_edit p.mode)
enabled current Event.click_cancel_request p =
    shows_active_request p && is_pending_request (active_request p)
enabled current Event.keep_request p = p.show_cancel_dialog
enabled current (Event.preview_arrives q) p = true
enabled current (Event.create_ends b) p = p.is_pending
enabled current (Event.update_ends b) p = p.is_pending
enabled current (Event.cancel_ends b) p = true
enabled current (Event.requests_arrive rs) p = true
enabled current (Event.tiers_arrive ts) p = true
enabled current (Event.methods_arrive ms) p = true

unfoldable pub handle : Event → UpgradePage → UpgradePage
handle (Event.click_tier t) p = record p { selected_tier = some t }
handle (Event.click_period b) p = record p { billing_period = b }
handle (Event.click_method i) p = record p {
  selected_payment_method =
      find (λ (m : PublicPaymentMethod). m.id == i) (or_empty p.payment_methods);
}
handle Event.click_next p = next_step p
handle Event.click_back p = prev_step p
handle Event.click_edit p = start_edit_mode p
handle Event.click_cancel_edit p = cancel_edit_mode p
handle Event.click_cancel_request p = record p { show_cancel_dialog = true }
handle Event.keep_request p = record p { show_cancel_dialog = false }
handle (Event.preview_arrives q) p = record p { preview = q }
handle (Event.create_ends b) p = settle_create b p
handle (Event.update_ends b) p = settle_update b p
handle (Event.cancel_ends b) p = settle_cancel b p
handle (Event.requests_arrive rs) p = record p { existing_requests = some rs }
handle (Event.tiers_arrive ts) p = record p { tiers_data = some ts }
handle (Event.methods_arrive ms) p = record p { payment_methods = some ms }
