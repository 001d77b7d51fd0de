-- ===== src/Users.antt =====
-- frontend/src/components/features/users/UserDialog.tsx: the dialog in which a user of a tenant is created or
-- edited.
pub mod Branch
pub mod Closing
pub mod Listing
use Prim.Native.String
use harmony_saas_multitenanc.Base.{
  ℕ, String, Bool, true, false, not, ◌&&◌, ◌||◌, Option, none, some, ◌==◌, if◌then◌else◌, ltb, List,
  [], ◌∷◌, ◌+◌,
}
use harmony_saas_multitenanc.Base.Characters.{units_of, Text, codes}
use harmony_saas_multitenanc.Browser.{truthy}
use harmony_saas_multitenanc.Auth.{TenantRole}
use harmony_saas_multitenanc.Client.{Reply, success, failure, Failure}
use harmony_saas_multitenanc.Public.{Shown, line, detail_or}

pub record UserWithBranch : Type 0 where
  pub id : String
  pub tenant_id : String
  pub email : String
  pub first_name : Option String
  pub last_name : Option String
  pub full_name : Option String
  pub phone : Option String
  pub avatar_url : Option String
  pub role : String
  pub tenant_role : Option TenantRole
  pub default_branch_id : Option String
  pub is_active : Bool
  pub is_verified : Bool
  pub created_at : String
  pub last_login_at : Option String
  pub branch_name : Option String
  pub branch_code : Option String
  pub tenant_name : Option String
  pub tenant_subdomain : Option String

pub record UserCreate : Type 0 where
  pub email : String
  pub password : String
  pub first_name : String
  pub last_name : String
  pub phone : String
  pub tenant_role : TenantRole
  pub default_branch_id : String

pub record UserUpdate : Type 0 where
  pub first_name : Option String
  pub last_name : Option String
  pub phone : Option String
  pub tenant_role : TenantRole
  pub default_branch_id : Option String

pub record UserDialog : Type 0 where
  pub loading : Bool
  pub error : Option Shown
  pub show_discard_dialog : Bool
  pub form_data : UserCreate
  pub initial_data : Option UserCreate

unfoldable pub first_user_dialog : UserDialog
first_user_dialog = record {
  loading = false;
  error = none;
  show_discard_dialog = false;
  form_data = record {
    email = "";
    password = "";
    first_name = "";
    last_name = "";
    phone = "";
    tenant_role = TenantRole.member;
    default_branch_id = "";
  };
  initial_data = none;
}

-- `text || ''`
abbrev pub or_blank : Option String → String
or_blank none = ""
or_blank (some s) = s

abbrev or_member : Option TenantRole → TenantRole
or_member none = TenantRole.member
or_member (some r) = r

-- What the form holds when the dialog is opened for a user, or for a new one.
unfoldable pub data_of : Option UserWithBranch → UserCreate
data_of (some user) = record {
  email = user.email;
  password = "";
  first_name = or_blank user.first_name;
  last_name = or_blank user.last_name;
  phone = or_blank user.phone;
  tenant_role = or_member user.tenant_role;
  default_branch_id = or_blank user.default_branch_id;
}
data_of none = record {
  email = "";
  password = "";
  first_name = "";
  last_name = "";
  phone = "";
  tenant_role = TenantRole.member;
  default_branch_id = "No_Branch";
}

unfoldable pub populate : Option UserWithBranch → UserDialog → UserDialog
unfolding data_of
populate user d = record d {
  form_data = data_of user;
  initial_data = some (data_of user);
  error = none;
}

abbrev pub same_role : TenantRole → TenantRole → Bool
same_role TenantRole.owner TenantRole.owner = true
same_role TenantRole.admin TenantRole.admin = true
same_role TenantRole.member TenantRole.member = true
same_role a b = false

abbrev pub is_edit : Option UserWithBranch → Bool
is_edit none = false
is_edit (some user) = true

abbrev pub differs : Bool → UserCreate → UserCreate → Bool
differs edit a b =
    not (a.first_name == b.first_name)
    || not (a.last_name == b.last_name)
    || not (a.phone == b.phone)
    || not (same_role a.tenant_role b.tenant_role)
    || not (a.default_branch_id == b.default_branch_id)
    || (not edit && not (a.email == b.email))
    || (not edit && not (a.password == b.password))

unfoldable pub is_dirty : Option UserWithBranch → UserDialog → Bool
is_dirty user d = elim d.initial_data [
  | none ↦ false
  | some initial ↦ differs (is_edit user) d.form_data initial
]

pub data UserField : Type 0 where
  email password first_name last_name phone default_branch_id : UserField

-- A field that is written, or chosen from a list.
pub data UserChange : Type 0 where
  written : UserField → String → UserChange
  role_chosen : TenantRole → UserChange

unfoldable pub handle_change : UserChange → UserCreate → UserCreate
handle_change (written email s) f = record f { email = s }
handle_change (written password s) f = record f { password = s }
handle_change (written first_name s) f = record f { first_name = s }
handle_change (written last_name s) f = record f { last_name = s }
handle_change (written phone s) f = record f { phone = s }
handle_change (written default_branch_id s) f = record f { default_branch_id = s }
handle_change (role_chosen r) f = record f { tenant_role = r }

unfoldable pub update_of_user : UserCreate → UserUpdate
update_of_user f = record {
  first_name = truthy (some f.first_name);
  last_name = truthy (some f.last_name);
  phone = truthy (some f.phone);
  tenant_role = f.tenant_role;
  default_branch_id = truthy (some f.default_branch_id);
}

-- What a submission sends, or why it sends nothing.
pub data UserSubmission : Type 0 where
  sends_update : String → UserUpdate → UserSubmission
  sends_create : UserCreate → UserSubmission
  refused : String → UserSubmission

unfoldable pub submit_user : Option UserWithBranch → UserDialog → UserSubmission
unfolding update_of_user units_of
submit_user (some user) d = sends_update user.id (update_of_user d.form_data)
submit_user none d =
    if d.form_data.password == "" || ltb (units_of (codes d.form_data.password)) 8
    then refused "Password must be at least 8 characters"
    else if d.form_data.default_branch_id == "" || d.form_data.default_branch_id == "No_Branch"
    then refused "Default branch must be selected"
    else sends_create d.form_data

-- The dialog when the submission has begun, and when it has ended; the result says whether it is closed.
unfoldable pub begin_submit : UserSubmission → UserDialog → UserDialog
begin_submit (refused message) d = record d { error = some (line message); loading = false }
begin_submit (sends_update id data') d = record d { error = none; loading = true }
begin_submit (sends_create data') d = record d { error = none; loading = true }

unfoldable pub end_submit :
    {A : Type 0} → Option UserWithBranch → Reply A → UserDialog → Bool × UserDialog
unfolding detail_or
end_submit user (success a) d = (true, record d { loading = false })
end_submit user (failure f) d =
    let fallback = if is_edit user then "Failed to update user" else "Failed to create user" in
    (false, record d { error = some (detail_or fallback f); loading = false })

-- A click on the button that cancels, or beside the dialog: whether it is closed, and the dialog.
unfoldable pub handle_cancel : Option UserWithBranch → UserDialog → Bool × UserDialog
unfolding is_dirty
handle_cancel user d =
    if is_dirty user d then (false, record d { show_discard_dialog = true }) else (true, d)
