-- ===== src/Branches/Headquarters.antt =====
-- frontend/src/components/features/branches/BranchDialog.tsx: a form does not make a branch the headquarters.
use harmony_saas_multitenanc.Base.{
  String, Bool, true, false, ◌≡◌, refl, Option, none, some, List, [], ◌∷◌, not, ◌||◌, arith, eq_iff,
  ◌==◌,
}
use harmony_saas_multitenanc.Branches.{
  Branch, BranchDialog, BranchField, change_branch, can_change, submit_branch, update_branch,
  create_branch, populate_branch, form_of_branch,
}

-- A field that cannot be written stays.
unfoldable pub write : Bool → BranchField → String → BranchDialog → BranchDialog
write true field s d = record d { form_data = change_branch field s d.form_data }
write false field s d = d

-- What the user writes, in its order.
unfoldable pub write_all : Option Branch → List (BranchField × String) → BranchDialog → BranchDialog
unfolding write
write_all branch [] d = d
write_all branch ((field, s) ∷ rest) d =
    write_all branch rest (write (can_change branch d field) field s d)

-- The form has the mark of the branch, and the code of the headquarters.
abbrev Keeps : Branch → BranchDialog → Type 0
Keeps b d = (d.form_data.is_hq ≡ b.is_hq) × ((not b.is_hq || d.form_data.code == b.code) ≡ true)

write-Keeps :
    (b : Branch) (field : BranchField) (s : String) (d : BranchDialog) (allowed : Bool)
    → can_change (some b) d field ≡ allowed
    → Keeps b d
    → Keeps b (write allowed field s d)
unfolding write change_branch can_change
write-Keeps b field s d false g h = h
write-Keeps b BranchField.code s d true g h = (h.0, ground arith)
write-Keeps b BranchField.name s d true g h = h
write-Keeps b BranchField.address s d true g h = h
write-Keeps b BranchField.city s d true g h = h
write-Keeps b BranchField.province s d true g h = h
write-Keeps b BranchField.postal_code s d true g h = h
write-Keeps b BranchField.country s d true g h = h
write-Keeps b BranchField.phone s d true g h = h
write-Keeps b BranchField.email s d true g h = h
write-Keeps b BranchField.timezone s d true g h = h
write-Keeps b BranchField.currency s d true g h = h

write_all-Keeps :
    (b : Branch) (cs : List (BranchField × String)) (d : BranchDialog)
    → Keeps b d
    → Keeps b (write_all (some b) cs d)
unfolding write_all
write_all-Keeps b [] d h = h
write_all-Keeps b ((field, s) ∷ cs) d h =
    write_all-Keeps b cs (write (can_change (some b) d field) field s d)
      (write-Keeps b field s d (can_change (some b) d field) refl h)

populate-Keeps : (b : Branch) (d : BranchDialog) → Keeps b (populate_branch (some b) d)
unfolding populate_branch form_of_branch
populate-Keeps b d = (refl, ground (arith, eq_iff b.code b.code))

-- Whatever the user writes, saving a branch sends the mark of the headquarters as the branch has it, and the code
-- of the headquarters as it is; and a new branch is never sent as the headquarters.
pub saving_keeps_headquarters :
    (b : Branch) (d : BranchDialog) (cs : List (BranchField × String))
    → let edited = write_all (some b) cs (populate_branch (some b) d) in
      let created = write_all none cs (populate_branch none d) in
      (submit_branch (some b) edited ≡ update_branch b.id edited.form_data)
      × (edited.form_data.is_hq ≡ b.is_hq)
      × ((not b.is_hq || edited.form_data.code == b.code) ≡ true)
      × (submit_branch none created ≡ create_branch (record created.form_data { is_hq = false }))
unfolding submit_branch
saving_keeps_headquarters b d cs =
    let held = write_all-Keeps b cs (populate_branch (some b) d) (populate-Keeps b d) in
    (refl, held.0, held.1, refl)
