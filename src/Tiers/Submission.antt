-- ===== src/Tiers/Submission.antt =====
-- What frontend/src/app/(auth)/admin/tiers/page.tsx sends to the server.
use harmony_saas_multitenanc.Base.{
  String, true, ◌&&◌, ◌||◌, ◌≡◌, refl, ◌∙◌, none, List, [], ◌∷◌, arith, eq_iff, contains,
  Bool-cases, inl, inr,
}
use harmony_saas_multitenanc.Payment.{SubscriptionTier}
use harmony_saas_multitenanc.Tiers.{add, set_from, filter_valid, select_valid, has_dot}
use harmony_saas_multitenanc.Tiers.Members.{contains-add}
use harmony_saas_multitenanc.Tiers.Dialog.{
  Form, TiersPage, Mutation, create, update, empty_form, form_of, open_create_dialog,
  open_edit_dialog, handle_submit, reset_form, settle,
}

contains-filter_valid :
    (fs : List String) (x : String) → contains (filter_valid fs) x ≡ (contains fs x && has_dot x)
unfolding contains filter_valid
contains-filter_valid [] x = refl
contains-filter_valid (f ∷ fs) x = elim (Bool-cases (has_dot f)) [
  | inl e ↦ rw e (ground (arith, eq_iff f x, contains-filter_valid fs x))
  | inr e ↦ rw e (ground (arith, eq_iff f x, contains-filter_valid fs x))
]

contains-set_from :
    (s xs : List String) (x : String) → contains (set_from s xs) x ≡ (contains s x || contains xs x)
unfolding contains set_from
contains-set_from s [] x = ground arith
contains-set_from s (y ∷ xs) x =
    contains-set_from (add y s) xs x ∙ ground (arith, contains-add y x s)

contains-select_valid :
    (fs : List String) (x : String) → contains (select_valid fs) x ≡ (contains fs x && has_dot x)
unfolding select_valid
contains-select_valid fs x =
    contains-set_from [] (filter_valid fs) x ∙ unfold contains in contains-filter_valid fs x

-- Saving a tier as it was opened updates that tier, with every field as it was but the features, of
-- which exactly those whose code has a dot remain.
pub edit_and_save :
    (tier : SubscriptionTier) (p : TiersPage)
    → (sent : Form) × (handle_submit (open_edit_dialog tier p) ≡ update tier.id sent)
      × (record sent { features = tier.features } ≡ form_of tier)
      × ((x : String) → contains sent.features x ≡ (contains tier.features x && has_dot x))
unfolding handle_submit open_edit_dialog form_of
edit_and_save tier p = (
  record (form_of tier) { features = select_valid tier.features },
  refl,
  refl,
  contains-select_valid tier.features,
)

-- Whatever the page held before, the dialog of a new tier submits the empty form as a new tier; and
-- so it does once a submitted form was accepted, or a deletion.
pub create_starts_empty :
    (p : TiersPage) (m : Mutation)
    → (handle_submit (open_create_dialog p) ≡ create empty_form)
      × (handle_submit (open_create_dialog (settle m true p)) ≡ create empty_form)
      × ((settle m true p).selected_tier ≡ none)
unfolding handle_submit open_create_dialog reset_form empty_form settle
create_starts_empty p m = (refl, refl, ground arith)
