-- ===== src/Methods.antt =====
-- frontend/src/app/(auth)/admin/payment-methods/page.tsx: the page on which the platform edits its payment methods:
-- its dialogs, the form, and the calls that are under way.
pub mod Codes
pub mod Late
use harmony_saas_multitenanc.Base.{
  ℕ, zero, suc, String, Bool, true, false, not, ◌&&◌, ◌||◌, Option, none, some, List, [], ◌∷◌, ◌++◌,
  any, remove_at, get_elem?, is_some,
}
use harmony_saas_multitenanc.Payment.{
  PaymentMethod, PaymentMethodCreate, PaymentMethodType, bank_transfer, WalletProvider,
}

-- `formData`, whose fields are all given.
unfoldable pub empty_method : PaymentMethodCreate
empty_method = record {
  code = "";
  name = "";
  type_of = bank_transfer;
  bank_name = some "";
  account_number = some "";
  account_name = some "";
  wallet_type = none;
  instructions = some "";
  sort_order = some 0;
  is_public = some true;
}

-- The form is sent whole, also where it updates a method.
pub data MethodMutation : Type 0 where
  create_method : PaymentMethodCreate → MethodMutation
  update_method : String → PaymentMethodCreate → MethodMutation
  delete_method permanent_delete_method : String → MethodMutation

-- The state of the page, with the calls that are under way, the latest one first.
pub record MethodsPage : Type 0 where
  pub is_dialog_open : Bool
  pub is_delete_dialog_open : Bool
  pub is_permanent_delete_dialog_open : Bool
  pub selected_method : Option PaymentMethod
  pub include_inactive : Bool
  pub form_data : PaymentMethodCreate
  pub under_way : List MethodMutation

unfoldable pub first_methods_page : MethodsPage
first_methods_page = record {
  is_dialog_open = false;
  is_delete_dialog_open = false;
  is_permanent_delete_dialog_open = false;
  selected_method = none;
  include_inactive = false;
  form_data = empty_method;
  under_way = [];
}

unfoldable pub reset_method : MethodsPage → MethodsPage
reset_method p = record p { form_data = empty_method; selected_method = none }

-- `text || ''`
abbrev text_or_empty : Option String → Option String
text_or_empty none = some ""
text_or_empty (some s) = some s

unfoldable pub form_of_method : PaymentMethod → PaymentMethodCreate
form_of_method m = record {
  code = m.code;
  name = m.name;
  type_of = m.type_of;
  bank_name = text_or_empty m.bank_name;
  account_number = text_or_empty m.account_number;
  account_name = text_or_empty m.account_name;
  wallet_type = m.wallet_type;
  instructions = text_or_empty m.instructions;
  sort_order = some m.sort_order;
  is_public = some m.is_public;
}

unfoldable pub open_edit_method : PaymentMethod → MethodsPage → MethodsPage
open_edit_method m p = record p {
  selected_method = some m;
  form_data = form_of_method m;
  is_dialog_open = true;
}

abbrev pub open_create_method : MethodsPage → MethodsPage
open_create_method p = record (reset_method p) { is_dialog_open = true }

abbrev pub open_delete_method : PaymentMethod → MethodsPage → MethodsPage
open_delete_method m p = record p { selected_method = some m; is_delete_dialog_open = true }

abbrev pub open_permanent_delete : PaymentMethod → MethodsPage → MethodsPage
open_permanent_delete m p = record p {
  selected_method = some m;
  is_permanent_delete_dialog_open = true;
}

unfoldable pub submit_method : MethodsPage → MethodMutation
submit_method p = elim p.selected_method [
  | some m ↦ update_method m.id p.form_data
  | none ↦ create_method p.form_data
]

abbrev pub started : Option MethodMutation → MethodsPage → MethodsPage
started none p = p
started (some call) p = record p { under_way = call ∷ p.under_way }

unfoldable pub deletion_of : (String → MethodMutation) → MethodsPage → Option MethodMutation
deletion_of call p = elim p.selected_method [ some m ↦ some (call m.id) | none ↦ none ]

-- `onSuccess` of the four mutations; an error changes nothing of the page.
unfoldable pub settle_method : MethodMutation → Bool → MethodsPage → MethodsPage
unfolding reset_method
settle_method call false p = p
settle_method (create_method form) true p = reset_method (record p { is_dialog_open = false })
settle_method (update_method id form) true p = reset_method (record p { is_dialog_open = false })
settle_method (delete_method id) true p = record p {
  is_delete_dialog_open = false;
  selected_method = none;
}
settle_method (permanent_delete_method id) true p = record p {
  is_permanent_delete_dialog_open = false;
  selected_method = none;
}

abbrev pub is_save : MethodMutation → Bool
is_save (create_method form) = true
is_save (update_method id form) = true
is_save (delete_method id) = false
is_save (permanent_delete_method id) = false

-- `createMutation.isPending || updateMutation.isPending`
unfoldable pub is_pending : MethodsPage → Bool
is_pending p = any is_save p.under_way

-- What the user writes into the fields of the form; a code comes in lower case.
pub data FormEdit : Type 0 where
  code_typed name_typed bank_name_typed account_number_typed account_name_typed instructions_typed :
      String → FormEdit
  type_chosen : PaymentMethodType → FormEdit
  wallet_chosen : WalletProvider → FormEdit
  sort_order_typed : ℕ → FormEdit
  public_switched : Bool → FormEdit

unfoldable pub edit_form : FormEdit → PaymentMethodCreate → PaymentMethodCreate
edit_form (code_typed s) f = record f { code = s }
edit_form (name_typed s) f = record f { name = s }
edit_form (bank_name_typed s) f = record f { bank_name = some s }
edit_form (account_number_typed s) f = record f { account_number = some s }
edit_form (account_name_typed s) f = record f { account_name = some s }
edit_form (instructions_typed s) f = record f { instructions = some s }
edit_form (type_chosen t) f = record f { type_of = t }
edit_form (wallet_chosen w) f = record f { wallet_type = some w }
edit_form (sort_order_typed n) f = record f { sort_order = some n }
edit_form (public_switched b) f = record f { is_public = some b }

-- The fields that only the dialog of a new method has.
abbrev pub is_for_new : FormEdit → Bool
is_for_new (code_typed s) = true
is_for_new (name_typed s) = false
is_for_new (bank_name_typed s) = false
is_for_new (account_number_typed s) = false
is_for_new (account_name_typed s) = false
is_for_new (instructions_typed s) = false
is_for_new (type_chosen t) = true
is_for_new (wallet_chosen w) = false
is_for_new (sort_order_typed n) = false
is_for_new (public_switched b) = false

pub data MethodEvent : Type 0 where
  add_clicked dialog_closed submit_clicked : MethodEvent
  edit_clicked delete_clicked permanent_clicked : PaymentMethod → MethodEvent
  form_edited : FormEdit → MethodEvent
  delete_closed permanent_closed delete_confirmed permanent_confirmed : MethodEvent
  inactive_switched : Bool → MethodEvent
  call_ends : ℕ → Bool → MethodEvent

abbrev pub shows_dialog : MethodsPage → Bool
shows_dialog p = p.is_dialog_open || p.is_delete_dialog_open || p.is_permanent_delete_dialog_open

-- Which controls can be used: an open dialog is modal, so the buttons of the page are out of reach.
unfoldable pub usable : Bool → MethodEvent → MethodsPage → Bool
unfolding is_pending
usable dev_mode add_clicked p = not (shows_dialog p)
usable dev_mode (edit_clicked m) p = not (shows_dialog p)
usable dev_mode (delete_clicked m) p = not (shows_dialog p) && m.is_active
usable dev_mode (permanent_clicked m) p = not (shows_dialog p) && not m.is_active && dev_mode
usable dev_mode (inactive_switched b) p = not (shows_dialog p)
usable dev_mode dialog_closed p = p.is_dialog_open
usable dev_mode submit_clicked p = p.is_dialog_open && not (is_pending p)
usable dev_mode (form_edited e) p =
    p.is_dialog_open && (not (is_for_new e) || not (is_some p.selected_method))
usable dev_mode delete_closed p = p.is_delete_dialog_open
usable dev_mode delete_confirmed p = p.is_delete_dialog_open
usable dev_mode permanent_closed p = p.is_permanent_delete_dialog_open
usable dev_mode permanent_confirmed p = p.is_permanent_delete_dialog_open
usable dev_mode (call_ends i ok) p = is_some (get_elem? p.under_way i)

abbrev pub ended : Option MethodMutation → ℕ → Bool → MethodsPage → MethodsPage
ended none i ok p = p
ended (some call) i ok p = settle_method call ok (record p { under_way = remove_at i p.under_way })

-- The button that confirms a deletion also closes its dialog, as each button of an alert does.
unfoldable pub on_method : MethodEvent → MethodsPage → MethodsPage
unfolding reset_method open_edit_method submit_method deletion_of settle_method edit_form
on_method add_clicked p = open_create_method p
on_method (edit_clicked m) p = open_edit_method m p
on_method (delete_clicked m) p = open_delete_method m p
on_method (permanent_clicked m) p = open_permanent_delete m p
on_method (inactive_switched b) p = record p { include_inactive = b }
on_method dialog_closed p = record p { is_dialog_open = false }
on_method submit_clicked p = started (some (submit_method p)) p
on_method (form_edited e) p = record p { form_data = edit_form e p.form_data }
on_method delete_closed p = record p { is_delete_dialog_open = false }
on_method delete_confirmed p = record (started (deletion_of delete_method p) p) {
  is_delete_dialog_open = false;
}
on_method permanent_closed p = record p { is_permanent_delete_dialog_open = false }
on_method permanent_confirmed p = record (started (deletion_of permanent_delete_method p) p) {
  is_permanent_delete_dialog_open = false;
}
on_method (call_ends i ok) p = ended (get_elem? p.under_way i) i ok p
