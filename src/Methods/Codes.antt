-- ===== src/Methods/Codes.antt =====
-- frontend/src/app/(auth)/admin/payment-methods/page.tsx: what the page can send, whatever the server answers and when.
use mathlib.Core.Path.{subst}
use harmony_saas_multitenanc.Base.{
  String, ℕ, ◌≤◌, Bool, true, false, ◌≡◌, refl, Option, none, some, List, arith, count_if,
  count_if-none, count_if-remove_at, remove_at, get_elem?, ◌&&◌, ◌||◌, not, is_some,
}
use harmony_saas_multitenanc.Payment.{PaymentMethod, PaymentMethodCreate}
use harmony_saas_multitenanc.Methods.{
  MethodsPage, MethodMutation, MethodEvent, FormEdit, create_method, update_method, delete_method,
  permanent_delete_method, first_methods_page, submit_method, settle_method, on_method, usable,
  is_pending, is_save, reset_method, open_edit_method, form_of_method, deletion_of, started, ended,
  edit_form, is_for_new,
}

pub data Reach (dev_mode : Bool) : MethodsPage → Type 0 where
  start : Reach dev_mode first_methods_page
  after :
      {p : MethodsPage} (e : MethodEvent)
      → Reach dev_mode p
      → usable dev_mode e p ≡ true
      → Reach dev_mode (on_method e p)

-- How many of the calls create or update a method.
abbrev pub saves : List MethodMutation → ℕ
saves = count_if is_save

-- The form of an open dialog has the code and the type of the method that is edited.
abbrev pub Matches : Bool → Option PaymentMethod → PaymentMethodCreate → Type 0
Matches false selected form = Unit
Matches true none form = Unit
Matches true (some m) form = (form.code ≡ m.code) × (form.type_of ≡ m.type_of)

pub record IsOrderly (p : MethodsPage) : Type 0 where
  pub matches : Matches p.is_dialog_open p.selected_method p.form_data
  pub one_save : saves p.under_way ≤ 1

Matches-none : (b : Bool) (form : PaymentMethodCreate) → Matches b none form
Matches-none true form = tt
Matches-none false form = tt

Matches-edit :
    (e : FormEdit) (b : Bool) (s : Option PaymentMethod) (form : PaymentMethodCreate)
    → (b && (not (is_for_new e) || not (is_some s))) ≡ true
    → Matches b s form
    → Matches b s (edit_form e form)
unfolding edit_form
Matches-edit e false s form g h = tt
Matches-edit e true none form g h = tt
Matches-edit (FormEdit.code_typed s) true (some m) form g h = absurd (cc g)
Matches-edit (FormEdit.type_chosen s) true (some m) form g h = absurd (cc g)
Matches-edit (FormEdit.name_typed s) true (some m) form g h = h
Matches-edit (FormEdit.bank_name_typed s) true (some m) form g h = h
Matches-edit (FormEdit.account_number_typed s) true (some m) form g h = h
Matches-edit (FormEdit.account_name_typed s) true (some m) form g h = h
Matches-edit (FormEdit.instructions_typed s) true (some m) form g h = h
Matches-edit (FormEdit.wallet_chosen s) true (some m) form g h = h
Matches-edit (FormEdit.sort_order_typed s) true (some m) form g h = h
Matches-edit (FormEdit.public_switched s) true (some m) form g h = h

settle-IsOrderly :
    (c : MethodMutation) (ok : Bool) (p : MethodsPage)
    → IsOrderly p
    → IsOrderly (settle_method c ok p)
unfolding settle_method reset_method
settle-IsOrderly c false p h = h
settle-IsOrderly (create_method f) true p h = record { matches = tt; one_save = h.one_save }
settle-IsOrderly (update_method i f) true p h = record { matches = tt; one_save = h.one_save }
settle-IsOrderly (delete_method i) true p h = record {
  matches = Matches-none p.is_dialog_open p.form_data;
  one_save = h.one_save;
}
settle-IsOrderly (permanent_delete_method i) true p h = record {
  matches = Matches-none p.is_dialog_open p.form_data;
  one_save = h.one_save;
}

ended-IsOrderly :
    (c : Option MethodMutation) (i : ℕ) (ok : Bool) (p : MethodsPage)
    → IsOrderly p
    → IsOrderly (ended c i ok p)
ended-IsOrderly none i ok p h = h
ended-IsOrderly (some c) i ok p h =
    let fewer = count_if-remove_at is_save i p.under_way in
    let held = h.one_save in
    settle-IsOrderly c ok (record p { under_way = remove_at i p.under_way })
      (record { matches = h.matches; one_save = omega arith })

deletion-one_save :
    (call : String → MethodMutation) (no_save : (i : String) → is_save (call i) ≡ false)
    (s : Option PaymentMethod) (p : MethodsPage)
    → saves p.under_way ≤ 1
    → saves (started (elim s [ some m ↦ some (call m.id) | none ↦ none ]) p).under_way ≤ 1
deletion-one_save call no_save none p h = h
deletion-one_save call no_save (some m) p h = let e = no_save m.id in ground arith

started-Matches :
    (c : Option MethodMutation) (p : MethodsPage)
    → IsOrderly p
    → Matches (started c p).is_dialog_open (started c p).selected_method (started c p).form_data
started-Matches none p h = h.matches
started-Matches (some c) p h = h.matches

Matches-closed :
    (b : Bool) (s : Option PaymentMethod) (f : PaymentMethodCreate) → b ≡ false → Matches b s f
Matches-closed false s f h = tt
Matches-closed true s f h = absurd (cc h)

on_method-IsOrderly :
    (dev_mode : Bool) (e : MethodEvent) (p : MethodsPage)
    → usable dev_mode e p ≡ true
    → IsOrderly p
    → IsOrderly (on_method e p)
unfolding on_method usable reset_method open_edit_method form_of_method submit_method deletion_of
    is_pending
on_method-IsOrderly d MethodEvent.add_clicked p g h = record { matches = tt; one_save = h.one_save }
on_method-IsOrderly d (MethodEvent.edit_clicked m) p g h = record {
  matches = (refl, refl);
  one_save = h.one_save;
}
on_method-IsOrderly d (MethodEvent.delete_clicked m) p g h = record {
  matches = Matches-closed p.is_dialog_open _ _ (ground arith);
  one_save = h.one_save;
}
on_method-IsOrderly d (MethodEvent.permanent_clicked m) p g h = record {
  matches = Matches-closed p.is_dialog_open _ _ (ground arith);
  one_save = h.one_save;
}
on_method-IsOrderly d (MethodEvent.inactive_switched b) p g h = record {
  matches = h.matches;
  one_save = h.one_save;
}
on_method-IsOrderly d MethodEvent.dialog_closed p g h = record {
  matches = tt;
  one_save = h.one_save;
}
on_method-IsOrderly d MethodEvent.submit_clicked p g h =
    let none_on = count_if-none is_save p.under_way (ground arith) in
    record { matches = h.matches; one_save = ground arith }
on_method-IsOrderly d (MethodEvent.form_edited e) p g h = record {
  matches = Matches-edit e p.is_dialog_open p.selected_method p.form_data g h.matches;
  one_save = h.one_save;
}
on_method-IsOrderly d MethodEvent.delete_closed p g h = record {
  matches = h.matches;
  one_save = h.one_save;
}
on_method-IsOrderly d MethodEvent.delete_confirmed p g h = record {
  matches = started-Matches _ p h;
  one_save = deletion-one_save delete_method (λ i. refl) p.selected_method p h.one_save;
}
on_method-IsOrderly d MethodEvent.permanent_closed p g h = record {
  matches = h.matches;
  one_save = h.one_save;
}
on_method-IsOrderly d MethodEvent.permanent_confirmed p g h = record {
  matches = started-Matches _ p h;
  one_save = deletion-one_save permanent_delete_method (λ i. refl) p.selected_method p h.one_save;
}
on_method-IsOrderly d (MethodEvent.call_ends i ok) p g h =
    ended-IsOrderly (get_elem? p.under_way i) i ok p h

pub Reach-IsOrderly : {dev_mode : Bool} {p : MethodsPage} → Reach dev_mode p → IsOrderly p
unfolding first_methods_page
Reach-IsOrderly start = record { matches = tt; one_save = omega arith }
Reach-IsOrderly {dev_mode} (after {p} e r g) =
    on_method-IsOrderly dev_mode e p g (Reach-IsOrderly r)

-- Whatever the server answers and when, where the form of a method is open for editing, the button sends an
-- update of that method with its own code and type, and at most one call that creates or updates a method is
-- under way.
pub update_keeps_code :
    {dev_mode : Bool} (p : MethodsPage) (m : PaymentMethod)
    → Reach dev_mode p
    → p.is_dialog_open ≡ true
    → p.selected_method ≡ some m
    → (submit_method p ≡ update_method m.id p.form_data)
      × (p.form_data.code ≡ m.code)
      × (p.form_data.type_of ≡ m.type_of)
      × (saves p.under_way ≤ 1)
unfolding submit_method
update_keeps_code p m reach open_now chosen =
    let held = Reach-IsOrderly reach in
    let own : Matches true (some m) p.form_data =
      subst (λ b. Matches b (some m) p.form_data) open_now
        (subst (λ s. Matches p.is_dialog_open s p.form_data) chosen held.matches) in
    (rw chosen refl, own.0, own.1, held.one_save)
