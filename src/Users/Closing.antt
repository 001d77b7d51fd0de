-- ===== src/Users/Closing.antt =====
-- frontend/src/components/features/users/UserDialog.tsx: the dialog is closed without a question.
use harmony_saas_multitenanc.Base.{true, false, ◌≡◌, Option, none, some, arith, eq_iff, ap}
use harmony_saas_multitenanc.Browser.{truthy}
use harmony_saas_multitenanc.Auth.{TenantRole}
use harmony_saas_multitenanc.Users.{
  UserWithBranch, UserCreate, UserDialog, submit_user, is_dirty, differs, same_role, is_edit,
  update_of_user, handle_cancel, sends_update,
}

same_role→eq : (a b : TenantRole) → same_role a b ≡ true → a ≡ b
same_role→eq a b h = ground arith

same_but_account :
    (f g : UserCreate) → differs true f g ≡ false → update_of_user f ≡ update_of_user g
unfolding update_of_user
same_but_account f g h =
    let first = (eq_iff f.first_name g.first_name).0 (ground arith) in
    let last = (eq_iff f.last_name g.last_name).0 (ground arith) in
    let phone = (eq_iff f.phone g.phone).0 (ground arith) in
    let branch = (eq_iff f.default_branch_id g.default_branch_id).0 (ground arith) in
    let role = same_role→eq f.tenant_role g.tenant_role (ground arith) in
    λ i. record {
      first_name = truthy (some (first i));
      last_name = truthy (some (last i));
      phone = truthy (some (phone i));
      tenant_role = role i;
      default_branch_id = truthy (some (branch i));
    }

same_form : (f g : UserCreate) → differs false f g ≡ false → f ≡ g
same_form f g h =
    let first = (eq_iff f.first_name g.first_name).0 (ground arith) in
    let last = (eq_iff f.last_name g.last_name).0 (ground arith) in
    let phone = (eq_iff f.phone g.phone).0 (ground arith) in
    let branch = (eq_iff f.default_branch_id g.default_branch_id).0 (ground arith) in
    let role = same_role→eq f.tenant_role g.tenant_role (ground arith) in
    let address = (eq_iff f.email g.email).0 (ground arith) in
    let secret = (eq_iff f.password g.password).0 (ground arith) in
    λ i. record {
      email = address i;
      password = secret i;
      first_name = first i;
      last_name = last i;
      phone = phone i;
      tenant_role = role i;
      default_branch_id = branch i;
    }

handle_cancel-closes :
    (user : Option UserWithBranch) (d : UserDialog)
    → (handle_cancel user d).0 ≡ true
    → is_dirty user d ≡ false
unfolding handle_cancel
handle_cancel-closes user d k = ground arith

is_dirty-differs :
    (user : Option UserWithBranch) (d : UserDialog) (initial : UserCreate)
    → d.initial_data ≡ some initial
    → is_dirty user d ≡ false
    → differs (is_edit user) d.form_data initial ≡ false
unfolding is_dirty
is_dirty-differs user d initial h k = rw h at k

closes-clean :
    (user : Option UserWithBranch) (d : UserDialog) (initial : UserCreate)
    → d.initial_data ≡ some initial
    → (handle_cancel user d).0 ≡ true
    → differs (is_edit user) d.form_data initial ≡ false
closes-clean user d initial h k = is_dirty-differs user d initial h (handle_cancel-closes user d k)

-- Where the button that cancels closes the dialog at once, nothing is lost: a submission would have sent what
-- it sends for the form as it was opened.
pub clean_close_loses_nothing :
    (user : Option UserWithBranch) (d : UserDialog) (initial : UserCreate)
    → d.initial_data ≡ some initial
    → (handle_cancel user d).0 ≡ true
    → submit_user user d ≡ submit_user user (record d { form_data = initial })
unfolding submit_user
clean_close_loses_nothing (some user) d initial h k =
    ap (sends_update user.id)
      (same_but_account d.form_data initial (closes-clean (some user) d initial h k))
clean_close_loses_nothing none d initial h k =
    ap (λ f. submit_user none (record d { form_data = f }))
      (same_form d.form_data initial (closes-clean none d initial h k))
