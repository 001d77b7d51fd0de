-- ===== src/Tests/Paying.antt =====
-- The page of the payment methods, on concrete methods.
use harmony_saas_multitenanc.Base.{◌≤◌, true, false, ◌≡◌, refl, none, some, [], ◌∷◌}
use harmony_saas_multitenanc.Payment.{PaymentMethod, bank_transfer, qris}
use harmony_saas_multitenanc.Methods.{
  MethodsPage, MethodEvent, first_methods_page, form_of_method, on_method, open_edit_method,
  submit_method, update_method, create_method, usable, is_pending,
}
use harmony_saas_multitenanc.Methods.Codes.{Reach, start, after, saves, update_keeps_code}
use harmony_saas_multitenanc.Methods.Late.{run_usable, deletion_turns_edit_into_copy}

abbrev bank : PaymentMethod
bank = record {
  id = "m1";
  code = "bca";
  name = "Bank BCA";
  type_of = bank_transfer;
  bank_name = some "BCA";
  account_number = some "1234567890";
  account_name = none;
  wallet_type = none;
  qris_image_file_id = none;
  qris_image_url = none;
  instructions = none;
  sort_order = 1;
  is_public = true;
  is_active = true;
  created_at = "2025-01-01";
  updated_at = none;
}

abbrev code_scan : PaymentMethod
code_scan = record bank { id = "m2"; code = "qris"; name = "QRIS"; type_of = qris }

abbrev editing : MethodsPage
editing = on_method (MethodEvent.edit_clicked bank) first_methods_page

editing_reached : Reach false editing
unfolding usable first_methods_page
editing_reached = after (MethodEvent.edit_clicked bank) start refl

update_keeps_code_example :
    (submit_method editing ≡ update_method "m1" editing.form_data)
    × (editing.form_data.code ≡ "bca")
    × (editing.form_data.type_of ≡ bank_transfer)
    × (saves editing.under_way ≤ 1)
unfolding on_method open_edit_method
update_keeps_code_example = update_keeps_code editing bank editing_reached refl refl

deletion_turns_edit_into_copy_example :
    (q : MethodsPage) × (run_usable false
        (MethodEvent.delete_clicked bank
          ∷ MethodEvent.delete_confirmed
          ∷ MethodEvent.edit_clicked code_scan
          ∷ MethodEvent.call_ends 0 true
          ∷ [])
        first_methods_page
      ≡ some q)
    × (q.is_dialog_open ≡ true)
    × (usable false MethodEvent.submit_clicked q ≡ true)
    × (submit_method q ≡ create_method (form_of_method code_scan))
unfolding first_methods_page is_pending
deletion_turns_edit_into_copy_example =
    deletion_turns_edit_into_copy false bank code_scan first_methods_page refl refl refl
