-- ===== src/Auth.antt =====
-- frontend/src/types/auth.ts: users, their roles, and the role predicates. `null` is `none`.
pub mod Laws
use harmony_saas_multitenanc.Base.{
  String, Bool, true, false, not, ◌&&◌, Option, none, some, is_some,
}

pub data SystemRole : Type 0 where
  admin operator : SystemRole

pub data TenantRole : Type 0 where
  owner admin member : TenantRole

pub record User : Type 0 where
  pub id : String
  pub email : String
  pub first_name : Option String
  pub last_name : Option String
  pub full_name : Option String
  pub phone : Option String
  pub tenant_id : Option String
  pub system_role : Option SystemRole
  pub tenant_role : Option TenantRole
  pub business_role : Option String
  pub role : String
  pub is_super_admin : Bool
  pub default_branch_id : Option String
  pub avatar_url : Option String
  pub is_active : Bool
  pub is_verified : Bool
  pub created_at : String
  pub last_login_at : Option String

pub record Tenant : Type 0 where
  pub id : String
  pub name : String
  pub subdomain : String
  pub tier : String

pub record Tokens : Type 0 where
  pub access_token : String
  pub refresh_token : String
  pub token_type : String

-- `user !== null && user.tenant_id === null`
unfoldable pub is_system_user : Option User → Bool
is_system_user none = false
is_system_user (some u) = not (is_some u.tenant_id)

unfoldable pub is_tenant_user : Option User → Bool
is_tenant_user none = false
is_tenant_user (some u) = is_some u.tenant_id

-- `user?.system_role` and `user?.tenant_role`
abbrev pub system_role_of : Option User → Option SystemRole
system_role_of none = none
system_role_of (some u) = u.system_role

abbrev pub tenant_role_of : Option User → Option TenantRole
tenant_role_of none = none
tenant_role_of (some u) = u.tenant_role

abbrev is_admin : Option SystemRole → Bool
is_admin (some SystemRole.admin) = true
is_admin _ = false

abbrev is_operator : Option SystemRole → Bool
is_operator (some SystemRole.operator) = true
is_operator _ = false

abbrev is_owner : Option TenantRole → Bool
is_owner (some TenantRole.owner) = true
is_owner _ = false

abbrev is_tenant_admin_role : Option TenantRole → Bool
is_tenant_admin_role (some TenantRole.admin) = true
is_tenant_admin_role _ = false

abbrev is_member : Option TenantRole → Bool
is_member (some TenantRole.member) = true
is_member _ = false

unfoldable pub is_system_admin : Option User → Bool
unfolding is_system_user
is_system_admin user = is_system_user user && is_admin (system_role_of user)

unfoldable pub is_system_operator : Option User → Bool
unfolding is_system_user
is_system_operator user = is_system_user user && is_operator (system_role_of user)

unfoldable pub is_tenant_owner : Option User → Bool
unfolding is_tenant_user
is_tenant_owner user = is_tenant_user user && is_owner (tenant_role_of user)

unfoldable pub is_tenant_admin : Option User → Bool
unfolding is_tenant_user
is_tenant_admin user = is_tenant_user user && is_tenant_admin_role (tenant_role_of user)

unfoldable pub is_tenant_member : Option User → Bool
unfolding is_tenant_user
is_tenant_member user = is_tenant_user user && is_member (tenant_role_of user)

unfoldable pub can_manage_billing : Option User → Bool
unfolding is_tenant_owner
can_manage_billing user = is_tenant_owner user

unfoldable pub can_delete_account : Option User → Bool
unfolding is_tenant_owner
can_delete_account user = is_tenant_owner user
