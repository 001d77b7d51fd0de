-- ===== src/Users/Branch.antt =====
-- frontend/src/components/features/users/UserDialog.tsx: the default branch of a user who is edited.
use harmony_saas_multitenanc.Base.{
  Bool, true, false, ◌≡◌, refl, some, List, [], ◌∷◌, not, all, arith, ◌==◌,
}
use harmony_saas_multitenanc.Users.{
  UserWithBranch, UserCreate, UserDialog, UserField, UserChange, written, role_chosen,
  handle_change, update_of_user, submit_user, sends_update, populate, data_of, or_blank,
}

-- The changes of the form, in their order.
unfoldable pub change_all : List UserChange → UserCreate → UserCreate
change_all [] f = f
change_all (c ∷ rest) f = change_all rest (handle_change c f)

-- The list of branches offers no empty value: "No Branch" is the value "No_Branch".
unfoldable pub is_offered : UserChange → Bool
is_offered (written UserField.email s) = true
is_offered (written UserField.password s) = true
is_offered (written UserField.first_name s) = true
is_offered (written UserField.last_name s) = true
is_offered (written UserField.phone s) = true
is_offered (written UserField.default_branch_id s) = not (s == "")
is_offered (role_chosen r) = true

handle_change-branch :
    (c : UserChange) (f : UserCreate)
    → is_offered c ≡ true
    → (f.default_branch_id == "") ≡ false
    → ((handle_change c f).default_branch_id == "") ≡ false
unfolding is_offered handle_change
handle_change-branch (written UserField.email s) f g h = h
handle_change-branch (written UserField.password s) f g h = h
handle_change-branch (written UserField.first_name s) f g h = h
handle_change-branch (written UserField.last_name s) f g h = h
handle_change-branch (written UserField.phone s) f g h = h
handle_change-branch (written UserField.default_branch_id s) f g h = ground arith
handle_change-branch (role_chosen r) f g h = h

change_all-branch :
    (cs : List UserChange) (f : UserCreate)
    → all is_offered cs ≡ true
    → (f.default_branch_id == "") ≡ false
    → ((change_all cs f).default_branch_id == "") ≡ false
unfolding change_all
change_all-branch [] f g h = h
change_all-branch (c ∷ cs) f g h =
    change_all-branch cs (handle_change c f) (ground arith)
      (handle_change-branch c f (ground arith) h)

-- Whatever is chosen and written in the form of a user who has a branch, saving never sends null as the branch:
-- the choice "No Branch" does not take the branch away.
pub branch_never_cleared :
    (user : UserWithBranch) (d : UserDialog) (cs : List UserChange)
    → (or_blank user.default_branch_id == "") ≡ false
    → all is_offered cs ≡ true
    → let opened = populate (some user) d in
      let form = change_all cs opened.form_data in
      (submit_user (some user) (record opened { form_data = form })
        ≡ sends_update user.id (update_of_user form))
      × ((update_of_user form).default_branch_id ≡ some form.default_branch_id)
unfolding submit_user update_of_user populate data_of
branch_never_cleared user d cs has offered =
    let kept = change_all-branch cs (data_of (some user)) offered has in (refl, rw kept refl)
