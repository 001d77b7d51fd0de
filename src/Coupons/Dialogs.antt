-- ===== src/Coupons/Dialogs.antt =====
-- frontend/src/app/(auth)/admin/coupons/page.tsx: what the dialog of a new coupon holds after other dialogs were used.
use harmony_saas_multitenanc.Base.{
  Bool, true, false, not, ◌≡◌, refl, ◌∙◌, ap, some, List, [], ◌∷◌, arith, all,
}
use harmony_saas_multitenanc.Coupons.{
  Coupon, CouponsPage, create_coupon, update_coupon, delete_coupon, CouponEvent, open_create,
  close_create, close_edit, close_delete, close_stats, stats_clicked, edit_clicked, delete_clicked,
  form_changed, settled, on_event, open_edit, form_of_coupon, handle_create, handle_update,
  update_of_form, settle_coupon, reset_coupon,
}

abbrev pub run_events : List CouponEvent → CouponsPage → CouponsPage
run_events [] p = p
run_events (e ∷ es) p = run_events es (on_event e p)

-- The events that leave the form as it is: all but the fields of the form, the click that edits a coupon
-- and the end of an accepted creation.
abbrev pub keeps_form : CouponEvent → Bool
keeps_form open_create = true
keeps_form close_create = true
keeps_form close_edit = true
keeps_form close_delete = true
keeps_form close_stats = true
keeps_form (stats_clicked c) = true
keeps_form (edit_clicked c) = false
keeps_form (delete_clicked c) = true
keeps_form (form_changed f) = false
keeps_form (settled (create_coupon f) ok) = not ok
keeps_form (settled (update_coupon i u) ok) = true
keeps_form (settled (delete_coupon i) ok) = true

event-form :
    (e : CouponEvent) (p : CouponsPage)
    → keeps_form e ≡ true
    → (on_event e p).form_data ≡ p.form_data
unfolding on_event settle_coupon reset_coupon
event-form open_create p h = refl
event-form close_create p h = refl
event-form close_edit p h = refl
event-form close_delete p h = refl
event-form close_stats p h = refl
event-form (stats_clicked c) p h = refl
event-form (edit_clicked c) p h = ground arith
event-form (delete_clicked c) p h = refl
event-form (form_changed f) p h = ground arith
event-form (settled (create_coupon f) true) p h = ground arith
event-form (settled (create_coupon f) false) p h = refl
event-form (settled (update_coupon i u) true) p h = refl
event-form (settled (update_coupon i u) false) p h = refl
event-form (settled (delete_coupon i) true) p h = refl
event-form (settled (delete_coupon i) false) p h = refl

run_events-form :
    (es : List CouponEvent) (p : CouponsPage)
    → all keeps_form es ≡ true
    → (run_events es p).form_data ≡ p.form_data
run_events-form [] p h = refl
run_events-form (e ∷ es) p h =
    run_events-form es (on_event e p) (ground arith) ∙ event-form e p (ground arith)

-- Saving a coupon as it was opened updates that coupon, with the fields that were filled in from it.
-- Afterwards, whatever dialogs are opened and closed and whatever mutations end, until the form is
-- written to, another coupon is edited or a creation is accepted, the dialog of a new coupon submits
-- those fields again, the code of the edited coupon among them.
pub edit_leaks_into_create :
    (c : Coupon) (p : CouponsPage) (es : List CouponEvent)
    → all keeps_form es ≡ true
    → let edited = on_event (edit_clicked c) p in
      (handle_update edited ≡ some (update_coupon c.id (update_of_form (form_of_coupon c))))
      × (handle_create (on_event open_create (run_events es edited))
          ≡ create_coupon (form_of_coupon c))
      × ((form_of_coupon c).code ≡ c.code)
unfolding on_event open_edit handle_update handle_create form_of_coupon
edit_leaks_into_create c p es h =
    (refl, ap create_coupon (run_events-form es (on_event (edit_clicked c) p) h), refl)
