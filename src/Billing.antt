-- ===== src/Billing.antt =====
-- frontend/src/app/(auth)/admin/billing/[transactionId]/TransactionDetail.tsx: the page on which the platform
-- handles a transaction: its dialogs, their forms, and the calls that are under way.
pub mod Controls
pub mod Guards
use harmony_saas_multitenanc.Base.{
  ℕ, String, Bool, true, false, not, ◌&&◌, ◌||◌, Option, none, some, List, [], ◌∷◌, any, nat_eq,
  if◌then◌else◌, is_some,
}
use harmony_saas_multitenanc.Base.Characters.{Text, codes, trim, trim_start, to_upper, text_eq}
use harmony_saas_multitenanc.Client.{Reply, success, failure}
use harmony_saas_multitenanc.Numerals.{Number, nan, finite, value, leading_digits, parse_float}

pub data TransactionStatus : Type 0 where
  pending paid cancelled rejected refunded : TransactionStatus

-- Of a transaction, what the controls of the page depend on.
pub record BillingTransactionDetail : Type 0 where
  pub id : String
  pub has_payment_proof : Bool
  pub payment_proof_file_id : Option String
  pub status : TransactionStatus
  pub requires_review : Bool
  pub can_approve : Bool
  pub can_reject : Bool
  pub coupon_id : Option String

pub data Discount : Type 0 where
  percentage fixed : Discount

-- The six dialogs that send something.
pub data Action : Type 0 where
  approve reject coupon discount bonus note : Action

-- A call with its data. A parameter that may be `undefined` is an option.
pub data BillingCall : Type 0 where
  approve_transaction : Option Text → BillingCall
  reject_transaction : Text → BillingCall
  apply_coupon : Text → BillingCall
  apply_discount : Discount → Number → Option Text → BillingCall
  add_bonus : Number → Option Text → BillingCall
  add_note : Text → BillingCall

pub record TransactionPage : Type 0 where
  pub show_approve_dialog : Bool
  pub show_reject_dialog : Bool
  pub show_coupon_dialog : Bool
  pub show_discount_dialog : Bool
  pub show_bonus_dialog : Bool
  pub show_note_dialog : Bool
  pub show_proof_preview : Bool
  pub show_invoice_dialog : Bool
  pub payment_proof_url : Option String
  pub payment_proof_loading : Bool
  pub approve_notes : Text
  pub reject_reason : Text
  pub coupon_code : Text
  pub discount_type : Discount
  pub discount_value : Text
  pub discount_description : Text
  pub bonus_days : Text
  pub bonus_reason : Text
  pub admin_note : Text
  pub transaction : Option BillingTransactionDetail
  pub under_way : List BillingCall

unfoldable pub first_transaction_page : TransactionPage
first_transaction_page = record {
  show_approve_dialog = false;
  show_reject_dialog = false;
  show_coupon_dialog = false;
  show_discount_dialog = false;
  show_bonus_dialog = false;
  show_note_dialog = false;
  show_proof_preview = false;
  show_invoice_dialog = false;
  payment_proof_url = none;
  payment_proof_loading = false;
  approve_notes = [];
  reject_reason = [];
  coupon_code = [];
  discount_type = percentage;
  discount_value = [];
  discount_description = [];
  bonus_days = [];
  bonus_reason = [];
  admin_note = [];
  transaction = none;
  under_way = [];
}

-- `text || undefined`
abbrev pub unless_empty : Text → Option Text
unless_empty [] = none
unless_empty (c ∷ s) = some (c ∷ s)

-- `!text`, and `!text.trim()`
abbrev pub is_empty : Text → Bool
is_empty [] = true
is_empty (c ∷ s) = false

unfoldable pub is_blank : Text → Bool
unfolding trim
is_blank s = is_empty (trim s)

-- `parseInt` of what a field for numbers can hold: no text with a prefix `0x`.
abbrev whole : Bool → Text → Number
whole negative [] = nan
whole negative (c ∷ ds) = finite negative (value 0 (c ∷ ds)) 0

abbrev signed_whole : Text → Number
signed_whole [] = nan
signed_whole (c ∷ s) =
    if nat_eq c b'-'
    then whole true (leading_digits s).0
    else if nat_eq c b'+'
    then whole false (leading_digits s).0
    else whole false (leading_digits (c ∷ s)).0

unfoldable pub parse_int : Text → Number
unfolding leading_digits trim_start
parse_int s = signed_whole (trim_start s)

unfoldable pub action_of : BillingCall → Action
action_of (approve_transaction notes) = approve
action_of (reject_transaction reason) = reject
action_of (apply_coupon code) = coupon
action_of (apply_discount d value description) = discount
action_of (add_bonus days reason) = bonus
action_of (add_note notes) = note

-- What the button of a dialog sends.
unfoldable pub call_of : Action → TransactionPage → BillingCall
unfolding parse_int parse_float
call_of approve p = approve_transaction (unless_empty p.approve_notes)
call_of reject p = reject_transaction p.reject_reason
call_of coupon p = apply_coupon p.coupon_code
call_of discount p =
    apply_discount p.discount_type (parse_float p.discount_value)
      (unless_empty p.discount_description)
call_of bonus p = add_bonus (parse_int p.bonus_days) (unless_empty p.bonus_reason)
call_of note p = add_note p.admin_note

-- `onSuccess` of the six mutations; an error changes nothing of the page.
unfoldable pub settle_call : Action → Bool → TransactionPage → TransactionPage
settle_call action false p = p
settle_call approve true p = record p { show_approve_dialog = false; approve_notes = [] }
settle_call reject true p = record p { show_reject_dialog = false; reject_reason = [] }
settle_call coupon true p = record p { show_coupon_dialog = false; coupon_code = [] }
settle_call discount true p = record p {
  show_discount_dialog = false;
  discount_type = percentage;
  discount_value = [];
  discount_description = [];
}
settle_call bonus true p = record p {
  show_bonus_dialog = false;
  bonus_days = [];
  bonus_reason = [];
}
settle_call note true p = record p { show_note_dialog = false; admin_note = [] }

unfoldable pub proof_ends : Reply String → TransactionPage → TransactionPage
proof_ends (success url) p = record p {
  payment_proof_url = some url;
  payment_proof_loading = false;
}
proof_ends (failure f) p = record p { payment_proof_url = none; payment_proof_loading = false }

-- Whether the preview has to load the address of the proof first.
unfoldable pub loads_proof : TransactionPage → Bool
loads_proof p = elim p.transaction [
  | none ↦ false
  | some t ↦ is_some t.payment_proof_file_id && not (is_some p.payment_proof_url)
]

unfoldable pub handle_open_proof_preview : TransactionPage → TransactionPage
unfolding loads_proof
handle_open_proof_preview p = record p {
  show_proof_preview = true;
  payment_proof_loading = if loads_proof p then true else p.payment_proof_loading;
}
