-- ===== src/Tests/Managing.antt =====
-- The users and the branches of a tenant, on concrete ones.
use harmony_saas_multitenanc.Base.{
  String, true, false, not, ◌||◌, ◌==◌, ◌≡◌, refl, none, some, List, [], ◌∷◌,
}
use harmony_saas_multitenanc.Auth.{TenantRole}
use harmony_saas_multitenanc.Branches.{
  Branch, BranchDialog, BranchField, empty_branch, populate_branch, submit_branch, update_branch,
  create_branch,
}
use harmony_saas_multitenanc.Branches.Headquarters.{write_all, saving_keeps_headquarters}
use harmony_saas_multitenanc.Users.{
  UserWithBranch, UserDialog, UserField, UserChange, written, role_chosen, populate, data_of,
  first_user_dialog, submit_user, sends_update, update_of_user, handle_cancel, is_dirty,
}
use harmony_saas_multitenanc.Users.Branch.{change_all, is_offered, branch_never_cleared}
use harmony_saas_multitenanc.Users.Closing.{clean_close_loses_nothing}
use harmony_saas_multitenanc.Users.Listing.{UserListResponse, UsersPage}

abbrev colleague : UserWithBranch
colleague = record {
  id = "u2";
  tenant_id = "t1";
  email = "ann@example.com";
  first_name = some "Ann";
  last_name = none;
  full_name = some "Ann";
  phone = none;
  avatar_url = none;
  role = "staff";
  tenant_role = some TenantRole.member;
  default_branch_id = some "b1";
  is_active = true;
  is_verified = true;
  created_at = "2025-01-01";
  last_login_at = none;
  branch_name = some "North";
  branch_code = some "N";
  tenant_name = none;
  tenant_subdomain = none;
}

abbrev no_branch : List UserChange
no_branch = written UserField.default_branch_id "No_Branch" ∷ role_chosen TenantRole.admin ∷ []

branch_never_cleared_example :
    let opened = populate (some colleague) first_user_dialog in
    let form = change_all no_branch opened.form_data in
    (submit_user (some colleague) (record opened { form_data = form })
      ≡ sends_update "u2" (update_of_user form))
    × ((update_of_user form).default_branch_id ≡ some form.default_branch_id)
unfolding is_offered
branch_never_cleared_example = branch_never_cleared colleague first_user_dialog no_branch refl refl

abbrev untouched : UserDialog
untouched = populate (some colleague) first_user_dialog

clean_close_loses_nothing_example :
    submit_user (some colleague) untouched
    ≡ submit_user (some colleague) (record untouched { form_data = data_of (some colleague) })
unfolding populate handle_cancel is_dirty data_of
clean_close_loses_nothing_example =
    clean_close_loses_nothing (some colleague) untouched (data_of (some colleague)) refl refl

abbrev nobody_listed : UsersPage
nobody_listed = record {
  users = [];
  total = 0;
  loading = false;
  search = "";
  role_filter = "all";
  branch_filter = "all";
  dialog_open = false;
  delete_dialog_open = false;
  limit_dialog_open = false;
  limit_info = none;
  selected_user = none;
  unanswered = [];
}

abbrev listed_all : UserListResponse
listed_all = record { users = colleague ∷ []; total = 1; page = 1; page_size = 100 }

abbrev listed_none : UserListResponse
listed_none = record { users = []; total = 0; page = 1; page_size = 100 }

abbrev main_branch : Branch
main_branch = record {
  id = "b1";
  tenant_id = "t1";
  name = "Main";
  code = "HQ";
  is_hq = true;
  address = none;
  city = none;
  province = none;
  postal_code = none;
  country = "Indonesia";
  phone = none;
  email = none;
  timezone = "Asia/Jakarta";
  currency = "IDR";
  is_active = true;
  created_at = "2026-01-01";
  updated_at = none;
}

abbrev branch_dialog : BranchDialog
branch_dialog = record {
  loading = false;
  error = none;
  show_hq_confirm = false;
  setting_hq = false;
  form_data = empty_branch;
}

-- A name and a code are written; the code of the headquarters cannot be.
abbrev typed : List (BranchField × String)
typed = (BranchField.name, "North") ∷ (BranchField.code, "N") ∷ []

saving_keeps_headquarters_example :
    let edited =
      write_all (some main_branch) typed (populate_branch (some main_branch) branch_dialog) in
    let created = write_all none typed (populate_branch none branch_dialog) in
    (submit_branch (some main_branch) edited ≡ update_branch "b1" edited.form_data)
    × (edited.form_data.is_hq ≡ true)
    × ((not true || edited.form_data.code == "HQ") ≡ true)
    × (submit_branch none created ≡ create_branch (record created.form_data { is_hq = false }))
saving_keeps_headquarters_example = saving_keeps_headquarters main_branch branch_dialog typed
