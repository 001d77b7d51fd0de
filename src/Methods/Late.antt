-- ===== src/Methods/Late.antt =====
-- frontend/src/app/(auth)/admin/payment-methods/page.tsx: calls that end while the user is at another method.
use harmony_saas_multitenanc.Base.{
  Bool, true, false, ◌≡◌, refl, Option, none, some, List, [], ◌∷◌, arith, if◌then◌else◌,
}
use harmony_saas_multitenanc.Payment.{PaymentMethod}
use harmony_saas_multitenanc.Methods.{
  MethodsPage, MethodEvent, create_method, submit_method, settle_method, on_method, usable,
  is_pending, reset_method, open_edit_method, form_of_method, deletion_of, shows_dialog,
}

-- What events make of the page, if each of them can be when it comes.
unfoldable pub run_usable : Bool → List MethodEvent → MethodsPage → Option MethodsPage
run_usable dev_mode [] p = some p
run_usable dev_mode (e ∷ es) p =
    let rest = run_usable dev_mode es (on_method e p) in if usable dev_mode e p then rest else none

abbrev after_deletion : PaymentMethod → MethodsPage → MethodsPage
after_deletion b p = record p {
  is_dialog_open = true;
  is_delete_dialog_open = false;
  selected_method = none;
  form_data = form_of_method b;
}

-- Where no dialog is open and no creation or update is under way, the user can delete a method, and edit another one before
-- the server has answered. If the server accepts the deletion then, the dialog of the other method has
-- become one of a new method, and its button sends the creation of a second method with the same code, name
-- and type.
pub deletion_turns_edit_into_copy :
    (dev_mode : Bool) (a b : PaymentMethod) (p : MethodsPage)
    → shows_dialog p ≡ false
    → is_pending p ≡ false
    → a.is_active ≡ true
    → (q : MethodsPage) × (run_usable dev_mode
          (MethodEvent.delete_clicked a
            ∷ MethodEvent.delete_confirmed
            ∷ MethodEvent.edit_clicked b
            ∷ MethodEvent.call_ends 0 true
            ∷ [])
          p
        ≡ some q)
      × (q.is_dialog_open ≡ true)
      × (usable dev_mode MethodEvent.submit_clicked q ≡ true)
      × (submit_method q ≡ create_method (form_of_method b))
unfolding run_usable on_method usable submit_method settle_method reset_method open_edit_method
    deletion_of is_pending
deletion_turns_edit_into_copy d a b p closed idle active =
    (after_deletion b p, ground arith, refl, ground arith, refl)
