-- ===== src/Upgrade/Submitting.antt =====
-- frontend/src/app/(dashboard)/upgrade/page.tsx: what the last step of the wizard sends.
use mathlib.Core.Path.{subst}
use harmony_saas_multitenanc.Base.{
  String, Bool, true, false, not, ◌≡◌, refl, Option, none, some, arith, ◌&&◌, ◌||◌, is_some,
  if◌then◌else◌, Outcome, returned, thrown, Bool-cases, inl, inr,
}
use harmony_saas_multitenanc.Payment.{PublicTier, PublicPaymentMethod, UpgradeRequest}
use harmony_saas_multitenanc.Upgrade.{
  Step, UpgradePage, is_tier, is_edit, is_paid, active_request, Submission, create_request,
  update_request, cancel_request, create_mutation, update_mutation, created_method, request_of,
  update_of,
}
use harmony_saas_multitenanc.Upgrade.Controls.{submitted_by_next}
use harmony_saas_multitenanc.Upgrade.Reachable.{Reach, Reach-HasTier}

-- What is missing for the request that the page submits.
abbrev pub lacks_argument : UpgradePage → Bool
lacks_argument p =
    if is_edit p.mode
    then not (is_some (active_request p)) || not (is_some p.selected_payment_method)
    else is_paid p.preview && not (is_some p.selected_payment_method)

-- The tier and the period that a request names, and whether it is an update of the request.
abbrev pub Names : Submission → UpgradePage → PublicTier → Type 0
Names (create_request r) p t =
    (is_edit p.mode ≡ false) × (r.target_tier_code ≡ t.code) × (r.billing_period ≡ p.billing_period)
Names (update_request i r) p t =
    (is_edit p.mode ≡ true) × (r.target_tier_code ≡ t.code) × (r.billing_period ≡ p.billing_period)
Names (cancel_request i) p t = true ≡ false

-- The result of a submission, as one of the two cases.
abbrev pub Submitted : UpgradePage → Outcome Submission → Type 0
Submitted p thrown = lacks_argument p ≡ true
Submitted p (returned s) =
    (lacks_argument p ≡ false) × (t : PublicTier) × (p.selected_tier ≡ some t) × Names s p t

created :
    (p : UpgradePage) (q : Bool) (m : Option PublicPaymentMethod) (t : Option PublicTier)
    → is_some t ≡ true
    → p.selected_tier ≡ t
    → is_edit p.mode ≡ false
    → lacks_argument p ≡ (q && not (is_some m))
    → Submitted p (request_of t p.billing_period (created_method q m))
unfolding created_method request_of
created p true none (some t) s e d l = l
created p true (some m) (some t) s e d l = (l, t, e, (d, refl, refl))
created p false none (some t) s e d l = (l, t, e, (d, refl, refl))
created p false (some m) (some t) s e d l = (l, t, e, (d, refl, refl))
created p q m none s e d l = ground arith

updated :
    (p : UpgradePage) (r : Option UpgradeRequest) (m : Option PublicPaymentMethod)
    (t : Option PublicTier)
    → is_some t ≡ true
    → p.selected_tier ≡ t
    → is_edit p.mode ≡ true
    → lacks_argument p ≡ (not (is_some r) || not (is_some m))
    → Submitted p (update_of r t p.billing_period m)
unfolding update_of
updated p none m (some t) s e d l = l
updated p (some r) none (some t) s e d l = l
updated p (some r) (some m) (some t) s e d l = (l, t, e, (d, refl, refl))
updated p none m none s e d l = ground arith
updated p (some r) m none s e d l = ground arith

-- On a page that can be reached, at the last step, the button submits. A request is sent, of the
-- selected tier and of the chosen period, as an update exactly in the edit mode, unless an argument
-- is missing: the payment method of a new request whose preview requires payment, and in the edit
-- mode the active request or a payment method, whether payment is required or not. There the
-- submission fails before anything is sent.
pub submission_outcome :
    (current : String) (p : UpgradePage)
    → Reach current p
    → p.step ≡ Step.confirm
    → (o : Outcome Submission) × (submitted_by_next p ≡ some o) × Submitted p o
submission_outcome c p r e = elim (Bool-cases (is_edit p.mode)) [
  | inl d ↦ (
    update_mutation p,
    unfold submitted_by_next in rw (e, d) refl,
    unfold update_mutation in
        updated p (active_request p) p.selected_payment_method p.selected_tier chosen refl d
          (rw d refl),
  )
  | inr d ↦ (
    create_mutation p,
    unfold submitted_by_next in rw (e, d) refl,
    unfold create_mutation in
        created p (is_paid p.preview) p.selected_payment_method p.selected_tier chosen refl d
          (rw d refl),
  )
]
  where
    chosen : is_some p.selected_tier ≡ true
    chosen = subst (λ s. (is_tier s || is_some p.selected_tier) ≡ true) e (Reach-HasTier c p r)
