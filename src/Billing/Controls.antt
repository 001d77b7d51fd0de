-- ===== src/Billing/Controls.antt =====
-- frontend/src/app/(auth)/admin/billing/[transactionId]/TransactionDetail.tsx: the controls of the page and the
-- replies of the server, as events.
use harmony_saas_multitenanc.Base.{
  ℕ, Bool, true, false, not, ◌&&◌, ◌||◌, ◌≡◌, Option, none, some, ◌∷◌, any, get_elem?, remove_at,
  is_some, String,
}
use harmony_saas_multitenanc.Base.Characters.{Text, to_upper}
use harmony_saas_multitenanc.Client.{Reply}
use harmony_saas_multitenanc.Billing.{
  TransactionPage, TransactionStatus, BillingTransactionDetail, Discount, Action, BillingCall,
  approve, reject, coupon, discount, bonus, note, first_transaction_page, is_empty, is_blank,
  action_of, call_of, settle_call, proof_ends, handle_open_proof_preview,
}

abbrev pub same_action : Action → Action → Bool
same_action approve approve = true
same_action reject reject = true
same_action coupon coupon = true
same_action discount discount = true
same_action bonus bonus = true
same_action note note = true
same_action a b = false

unfoldable pub is_of : Action → BillingCall → Bool
unfolding action_of
is_of action call = same_action action (action_of call)

unfoldable pub shows : Action → TransactionPage → Bool
shows approve p = p.show_approve_dialog
shows reject p = p.show_reject_dialog
shows coupon p = p.show_coupon_dialog
shows discount p = p.show_discount_dialog
shows bonus p = p.show_bonus_dialog
shows note p = p.show_note_dialog

unfoldable pub set_shown : Action → Bool → TransactionPage → TransactionPage
set_shown approve b p = record p { show_approve_dialog = b }
set_shown reject b p = record p { show_reject_dialog = b }
set_shown coupon b p = record p { show_coupon_dialog = b }
set_shown discount b p = record p { show_discount_dialog = b }
set_shown bonus b p = record p { show_bonus_dialog = b }
set_shown note b p = record p { show_note_dialog = b }

abbrev pub shows_any : TransactionPage → Bool
shows_any p =
    p.show_approve_dialog || p.show_reject_dialog || p.show_coupon_dialog || p.show_discount_dialog
    || p.show_bonus_dialog || p.show_note_dialog || p.show_proof_preview || p.show_invoice_dialog

abbrev pub is_pending_status : TransactionStatus → Bool
is_pending_status TransactionStatus.pending = true
is_pending_status TransactionStatus.paid = false
is_pending_status TransactionStatus.cancelled = false
is_pending_status TransactionStatus.rejected = false
is_pending_status TransactionStatus.refunded = false

-- The actions that the page offers for a transaction.
unfoldable pub offers : Action → BillingTransactionDetail → Bool
offers approve t = t.can_approve
offers reject t = t.can_approve
offers coupon t = is_pending_status t.status && not (is_some t.coupon_id)
offers discount t = is_pending_status t.status
offers bonus t = true
offers note t = true

abbrev pub offered : Action → Option BillingTransactionDetail → Bool
offered action none = false
offered action (some t) = offers action t

-- Whether the form of a dialog can be sent.
unfoldable pub is_filled : Action → TransactionPage → Bool
unfolding is_blank
is_filled approve p = true
is_filled reject p = not (is_blank p.reject_reason)
is_filled coupon p = not (is_blank p.coupon_code)
is_filled discount p = not (is_empty p.discount_value)
is_filled bonus p = not (is_empty p.bonus_days)
is_filled note p = not (is_blank p.admin_note)

-- The two alerts close with the click that confirms.
abbrev pub stays_open : Action → Bool
stays_open approve = false
stays_open reject = false
stays_open coupon = true
stays_open discount = true
stays_open bonus = true
stays_open note = true

pub data Field : Type 0 where
  approve_notes reject_reason coupon_code discount_value discount_description bonus_days
        bonus_reason admin_note :
      Field

unfoldable pub type_into : Field → Text → TransactionPage → TransactionPage
unfolding to_upper
type_into approve_notes s p = record p { approve_notes = s }
type_into reject_reason s p = record p { reject_reason = s }
type_into coupon_code s p = record p { coupon_code = to_upper s }
type_into discount_value s p = record p { discount_value = s }
type_into discount_description s p = record p { discount_description = s }
type_into bonus_days s p = record p { bonus_days = s }
type_into bonus_reason s p = record p { bonus_reason = s }
type_into admin_note s p = record p { admin_note = s }

pub data BillingEvent : Type 0 where
  opened closed confirmed : Action → BillingEvent
  typed : Field → Text → BillingEvent
  discount_chosen : Discount → BillingEvent
  proof_opened proof_closed invoice_opened invoice_closed : BillingEvent
  proof_loaded : Reply String → BillingEvent
  transaction_arrives : BillingTransactionDetail → BillingEvent
  call_ends : ℕ → Bool → BillingEvent

-- Which events there can be: an open dialog is modal.
unfoldable pub can_come : BillingEvent → TransactionPage → Bool
can_come (BillingEvent.opened action) p = offered action p.transaction && not (shows_any p)
can_come (BillingEvent.closed action) p = shows action p
can_come (BillingEvent.confirmed action) p =
    shows action p && is_filled action p && not (any (is_of action) p.under_way)
can_come (BillingEvent.typed field s) p = shows_any p
can_come (BillingEvent.discount_chosen d) p = p.show_discount_dialog
can_come BillingEvent.proof_opened p = is_some p.transaction && not (shows_any p)
can_come BillingEvent.proof_closed p = p.show_proof_preview
can_come BillingEvent.invoice_opened p = is_some p.transaction && not (shows_any p)
can_come BillingEvent.invoice_closed p = p.show_invoice_dialog
can_come (BillingEvent.proof_loaded r) p = p.payment_proof_loading
can_come (BillingEvent.transaction_arrives t) p = true
can_come (BillingEvent.call_ends i ok) p = is_some (get_elem? p.under_way i)

abbrev pub ends : Option BillingCall → ℕ → Bool → TransactionPage → TransactionPage
ends none i ok p = p
ends (some call) i ok p =
    settle_call (action_of call) ok (record p { under_way = remove_at i p.under_way })

unfoldable pub answer : BillingEvent → TransactionPage → TransactionPage
answer (BillingEvent.opened action) p = set_shown action true p
answer (BillingEvent.closed action) p = set_shown action false p
answer (BillingEvent.confirmed action) p =
    set_shown action (stays_open action) (record p { under_way = call_of action p ∷ p.under_way })
answer (BillingEvent.typed field s) p = type_into field s p
answer (BillingEvent.discount_chosen d) p = record p { discount_type = d }
answer BillingEvent.proof_opened p = handle_open_proof_preview p
answer BillingEvent.proof_closed p = record p { show_proof_preview = false }
answer BillingEvent.invoice_opened p = record p { show_invoice_dialog = true }
answer BillingEvent.invoice_closed p = record p { show_invoice_dialog = false }
answer (BillingEvent.proof_loaded r) p = proof_ends r p
answer (BillingEvent.transaction_arrives t) p = record p { transaction = some t }
answer (BillingEvent.call_ends i ok) p = ends (get_elem? p.under_way i) i ok p

pub data Reach : TransactionPage → Type 0 where
  start : Reach first_transaction_page
  after :
      {p : TransactionPage} (e : BillingEvent) → Reach p → can_come e p ≡ true → Reach (answer e p)
