-- ===== src/Branches.antt =====
-- frontend/src/components/features/branches/BranchDialog.tsx: the dialog in which a branch of a tenant is created
-- or edited.
pub mod Headquarters
use Prim.Native.String
use harmony_saas_multitenanc.Base.{
  String, Bool, true, false, not, ◌&&◌, ◌||◌, Option, none, some, if◌then◌else◌,
}
use harmony_saas_multitenanc.Auth.{TenantRole}
use harmony_saas_multitenanc.Client.{Reply, success, failure}
use harmony_saas_multitenanc.Public.{Shown, detail_or}

-- A branch, without its place on the map, which no part of the dialog reads.
pub record Branch : Type 0 where
  pub id : String
  pub tenant_id : String
  pub name : String
  pub code : String
  pub is_hq : Bool
  pub address : Option String
  pub city : Option String
  pub province : Option String
  pub postal_code : Option String
  pub country : String
  pub phone : Option String
  pub email : Option String
  pub timezone : String
  pub currency : String
  pub is_active : Bool
  pub created_at : String
  pub updated_at : Option String

pub record BranchCreate : Type 0 where
  pub name : String
  pub code : String
  pub is_hq : Bool
  pub address : String
  pub city : String
  pub province : String
  pub postal_code : String
  pub country : String
  pub phone : String
  pub email : String
  pub timezone : String
  pub currency : String

pub record BranchDialog : Type 0 where
  pub loading : Bool
  pub error : Option Shown
  pub show_hq_confirm : Bool
  pub setting_hq : Bool
  pub form_data : BranchCreate

unfoldable pub empty_branch : BranchCreate
empty_branch = record {
  name = "";
  code = "";
  is_hq = false;
  address = "";
  city = "";
  province = "";
  postal_code = "";
  country = "Indonesia";
  phone = "";
  email = "";
  timezone = "Asia/Jakarta";
  currency = "IDR";
}

-- `text || ''`
abbrev or_nothing : Option String → String
or_nothing none = ""
or_nothing (some s) = s

unfoldable pub form_of_branch : Option Branch → BranchCreate
unfolding empty_branch
form_of_branch none = empty_branch
form_of_branch (some b) = record {
  name = b.name;
  code = b.code;
  is_hq = b.is_hq;
  address = or_nothing b.address;
  city = or_nothing b.city;
  province = or_nothing b.province;
  postal_code = or_nothing b.postal_code;
  country = b.country;
  phone = or_nothing b.phone;
  email = or_nothing b.email;
  timezone = b.timezone;
  currency = b.currency;
}

unfoldable pub populate_branch : Option Branch → BranchDialog → BranchDialog
unfolding form_of_branch
populate_branch branch d = record d { form_data = form_of_branch branch; error = none }

pub data BranchField : Type 0 where
  name code address city province postal_code country phone email timezone currency : BranchField

unfoldable pub change_branch : BranchField → String → BranchCreate → BranchCreate
change_branch name s f = record f { name = s }
change_branch code s f = record f { code = s }
change_branch address s f = record f { address = s }
change_branch city s f = record f { city = s }
change_branch province s f = record f { province = s }
change_branch postal_code s f = record f { postal_code = s }
change_branch country s f = record f { country = s }
change_branch phone s f = record f { phone = s }
change_branch email s f = record f { email = s }
change_branch timezone s f = record f { timezone = s }
change_branch currency s f = record f { currency = s }

abbrev is_headquarters : Option Branch → Bool
is_headquarters none = false
is_headquarters (some b) = b.is_hq

-- Which fields can be written: none while a call is under way, and never the code of the headquarters.
unfoldable pub can_change : Option Branch → BranchDialog → BranchField → Bool
can_change branch d code = not (d.loading || is_headquarters branch)
can_change branch d name = not d.loading
can_change branch d address = not d.loading
can_change branch d city = not d.loading
can_change branch d province = not d.loading
can_change branch d postal_code = not d.loading
can_change branch d country = not d.loading
can_change branch d phone = not d.loading
can_change branch d email = not d.loading
can_change branch d timezone = not d.loading
can_change branch d currency = not d.loading

pub data BranchCall : Type 0 where
  update_branch : String → BranchCreate → BranchCall
  create_branch : BranchCreate → BranchCall
  set_as_headquarters : String → BranchCall

unfoldable pub submit_branch : Option Branch → BranchDialog → BranchCall
submit_branch (some b) d = update_branch b.id d.form_data
submit_branch none d = create_branch (record d.form_data { is_hq = false })

-- The end of a submission; the result says whether the dialog is closed.
unfoldable pub end_branch :
    {A : Type 0} → Option Branch → Reply A → BranchDialog → Bool × BranchDialog
unfolding detail_or
end_branch branch (success a) d = (true, record d { loading = false })
end_branch (some b) (failure f) d =
    (false, record d { error = some (detail_or "Failed to update branch" f); loading = false })
end_branch none (failure f) d =
    (false, record d { error = some (detail_or "Failed to create branch" f); loading = false })

abbrev pub can_set_hq : Option TenantRole → Bool
can_set_hq none = false
can_set_hq (some TenantRole.owner) = true
can_set_hq (some TenantRole.admin) = true
can_set_hq (some TenantRole.member) = false

unfoldable pub handle_set_as_hq : Option Branch → Option BranchCall
handle_set_as_hq none = none
handle_set_as_hq (some b) = some (set_as_headquarters b.id)

unfoldable pub end_set_as_hq : {A : Type 0} → Reply A → BranchDialog → Bool × BranchDialog
end_set_as_hq (success a) d = (true, record d { show_hq_confirm = false; setting_hq = false })
end_set_as_hq (failure f) d = (false, record d { setting_hq = false })
