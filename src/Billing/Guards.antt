-- ===== src/Billing/Guards.antt =====
-- frontend/src/app/(auth)/admin/billing/[transactionId]/TransactionDetail.tsx: the calls that can be under way,
-- whatever the server answers and when.
use mathlib.Core.Path.{subst}
use harmony_saas_multitenanc.Base.{
  ℕ, ◌≤◌, Bool, true, false, not, ◌&&◌, ◌≡◌, refl, Option, none, some, List, ◌∷◌, all, any, arith,
  Bool-cases, inl, inr, sym, ◌∙◌, get_elem?, remove_at, count_if, count_if-none, count_if-remove_at,
  all-remove_at, String,
}
use harmony_saas_multitenanc.Base.Characters.{Text}
use harmony_saas_multitenanc.Client.{Reply, success, failure}
use harmony_saas_multitenanc.Billing.{
  TransactionPage, Action, BillingCall, approve, reject, coupon, discount, bonus, note,
  approve_transaction, reject_transaction, apply_coupon, apply_discount, add_bonus, add_note,
  first_transaction_page, is_blank, action_of, call_of, settle_call, proof_ends,
  handle_open_proof_preview,
}
use harmony_saas_multitenanc.Billing.Controls.{
  same_action, is_of, set_shown, is_filled, stays_open, Field, type_into, BillingEvent, can_come,
  ends, answer, Reach, start, after,
}

-- A call whose text says something, where it has to.
unfoldable pub says_something : BillingCall → Bool
unfolding is_blank
says_something (approve_transaction notes) = true
says_something (reject_transaction reason) = not (is_blank reason)
says_something (apply_coupon code) = not (is_blank code)
says_something (apply_discount d value description) = true
says_something (add_bonus days reason) = true
says_something (add_note notes) = not (is_blank notes)

-- The calls that may be under way together.
abbrev pub IsGuarded : Action → List BillingCall → Type 0
IsGuarded action calls = (all says_something calls ≡ true) × (count_if (is_of action) calls ≤ 1)

call_of-says_something :
    (action : Action) (p : TransactionPage)
    → is_filled action p ≡ true
    → says_something (call_of action p) ≡ true
unfolding says_something call_of is_filled
call_of-says_something approve p h = refl
call_of-says_something reject p h = h
call_of-says_something coupon p h = h
call_of-says_something discount p h = refl
call_of-says_something bonus p h = refl
call_of-says_something note p h = h

call_of-action : (action : Action) (p : TransactionPage) → action_of (call_of action p) ≡ action
unfolding call_of action_of
call_of-action approve p = refl
call_of-action reject p = refl
call_of-action coupon p = refl
call_of-action discount p = refl
call_of-action bonus p = refl
call_of-action note p = refl

set_shown-under_way :
    (action : Action) (b : Bool) (p : TransactionPage)
    → (set_shown action b p).under_way ≡ p.under_way
unfolding set_shown
set_shown-under_way approve b p = refl
set_shown-under_way reject b p = refl
set_shown-under_way coupon b p = refl
set_shown-under_way discount b p = refl
set_shown-under_way bonus b p = refl
set_shown-under_way note b p = refl

settle_call-under_way :
    (action : Action) (ok : Bool) (p : TransactionPage)
    → (settle_call action ok p).under_way ≡ p.under_way
unfolding settle_call
settle_call-under_way approve true p = refl
settle_call-under_way reject true p = refl
settle_call-under_way coupon true p = refl
settle_call-under_way discount true p = refl
settle_call-under_way bonus true p = refl
settle_call-under_way note true p = refl
settle_call-under_way action false p = refl

type_into-under_way :
    (f : Field) (s : Text) (p : TransactionPage) → (type_into f s p).under_way ≡ p.under_way
unfolding type_into
type_into-under_way Field.approve_notes s p = refl
type_into-under_way Field.reject_reason s p = refl
type_into-under_way Field.coupon_code s p = refl
type_into-under_way Field.discount_value s p = refl
type_into-under_way Field.discount_description s p = refl
type_into-under_way Field.bonus_days s p = refl
type_into-under_way Field.bonus_reason s p = refl
type_into-under_way Field.admin_note s p = refl

proof_ends-under_way :
    (r : Reply String) (p : TransactionPage) → (proof_ends r p).under_way ≡ p.under_way
unfolding proof_ends
proof_ends-under_way (success url) p = refl
proof_ends-under_way (failure f) p = refl

same_action→eq : (a b : Action) → same_action a b ≡ true → a ≡ b
same_action→eq a b h = ground arith

-- Where no call of an action is under way, one more leaves at most one of each action.
one_more :
    (one action : Action) (p : TransactionPage)
    → count_if (is_of action) p.under_way ≡ 0
    → count_if (is_of one) p.under_way ≤ 1
    → count_if (is_of one) (call_of action p ∷ p.under_way) ≤ 1
unfolding is_of
one_more one action p idle few =
    elim (Bool-cases (same_action one (action_of (call_of action p)))) [
      | inl e ↦
          let same : one ≡ action = same_action→eq one _ e ∙ call_of-action action p in
          let none_on = subst (λ a. count_if (is_of a) p.under_way ≡ 0) (sym same) idle in
          rw e (omega arith)
      | inr e ↦ rw e (omega arith)
    ]

confirmed-IsGuarded :
    (one action : Action) (p : TransactionPage)
    → (is_filled action p && not (any (is_of action) p.under_way)) ≡ true
    → IsGuarded one p.under_way
    → IsGuarded one (call_of action p ∷ p.under_way)
confirmed-IsGuarded one action p g h =
    let said = call_of-says_something action p (ground arith) in
    let none_on = count_if-none (is_of action) p.under_way (ground arith) in
    (ground arith, one_more one action p none_on h.1)

ends-IsGuarded :
    (one : Action) (c : Option BillingCall) (i : ℕ) (ok : Bool) (p : TransactionPage)
    → IsGuarded one p.under_way
    → IsGuarded one (ends c i ok p).under_way
ends-IsGuarded one none i ok p h = h
ends-IsGuarded one (some c) i ok p h =
    let fewer = count_if-remove_at (is_of one) i p.under_way in
    let held = h.1 in
    rw (settle_call-under_way (action_of c) ok (record p { under_way = remove_at i p.under_way }))
      (all-remove_at says_something i p.under_way h.0, omega arith)

answer-IsGuarded :
    (one : Action) (e : BillingEvent) (p : TransactionPage)
    → can_come e p ≡ true
    → IsGuarded one p.under_way
    → IsGuarded one (answer e p).under_way
unfolding answer can_come handle_open_proof_preview
answer-IsGuarded one (BillingEvent.opened a) p g h = rw (set_shown-under_way a true p) h
answer-IsGuarded one (BillingEvent.closed a) p g h = rw (set_shown-under_way a false p) h
answer-IsGuarded one (BillingEvent.confirmed a) p g h =
    rw (set_shown-under_way a (stays_open a) (record p { under_way = call_of a p ∷ p.under_way }))
      (confirmed-IsGuarded one a p (ground arith) h)
answer-IsGuarded one (BillingEvent.typed f s) p g h = rw (type_into-under_way f s p) h
answer-IsGuarded one (BillingEvent.discount_chosen d) p g h = h
answer-IsGuarded one BillingEvent.proof_opened p g h = h
answer-IsGuarded one BillingEvent.proof_closed p g h = h
answer-IsGuarded one BillingEvent.invoice_opened p g h = h
answer-IsGuarded one BillingEvent.invoice_closed p g h = h
answer-IsGuarded one (BillingEvent.proof_loaded r) p g h = rw (proof_ends-under_way r p) h
answer-IsGuarded one (BillingEvent.transaction_arrives t) p g h = h
answer-IsGuarded one (BillingEvent.call_ends i ok) p g h =
    ends-IsGuarded one (get_elem? p.under_way i) i ok p h

-- Whatever the server answers and when, no call under way has a blank reason of a rejection, a blank code of
-- a coupon or a blank note, and of each of the six actions at most one call is under way.
pub Reach-IsGuarded :
    (action : Action) {p : TransactionPage} → Reach p → IsGuarded action p.under_way
unfolding first_transaction_page
Reach-IsGuarded action start = (refl, omega arith)
Reach-IsGuarded action (after {p} e r g) = answer-IsGuarded action e p g (Reach-IsGuarded action r)
