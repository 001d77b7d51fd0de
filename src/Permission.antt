-- ===== src/Permission.antt =====
-- frontend/src/hooks/use-permission.ts: the permission checks. A hook reads the user of the auth store,
-- so it is a function of that user.
pub mod Tables
pub mod Hierarchy
pub mod Scopes
pub mod Legacy
use harmony_saas_multitenanc.Base.{
  String, Bool, true, false, Option, none, some, List, [], ◌∷◌, map, ◌==◌, if◌then◌else◌, all, any,
  contains, property, Outcome, returned, thrown, own, inherited, missing, Found,
}
use harmony_saas_multitenanc.Auth.{User, SystemRole, TenantRole, is_system_user, is_tenant_user}
use Tables.{system_role_permissions, tenant_role_permissions, role_permissions}

unfoldable pub has_system_permission : SystemRole → String → Bool
has_system_permission role permission = contains (system_role_permissions role) permission

unfoldable pub has_tenant_permission : TenantRole → String → Bool
has_tenant_permission role permission = contains (tenant_role_permissions role) permission

-- `perms ? perms.has(permission) : false`; what a table inherits has no method `has`
unfoldable pub has_in : Found (List String) → String → Outcome Bool
has_in (own perms) permission = returned (contains perms permission)
has_in inherited permission = thrown
has_in missing permission = returned false

unfoldable pub has_permission : String → String → Outcome Bool
unfolding has_in
has_permission role permission = has_in (property role_permissions role) permission

-- the check of a role that may be `null`
abbrev with_role : {R : Type 0} → Option R → (R → Bool) → Bool
with_role none check = false
with_role (some r) check = check r

unfoldable pub use_system_permission : Option User → String → Bool
unfolding is_system_user
use_system_permission none permission = false
use_system_permission (some u) permission =
    if is_system_user (some u)
    then with_role u.system_role (λ r. contains (system_role_permissions r) permission)
    else false

unfoldable pub use_tenant_permission : Option User → String → Bool
unfolding is_tenant_user
use_tenant_permission none permission = false
use_tenant_permission (some u) permission =
    if is_tenant_user (some u)
    then with_role u.tenant_role (λ r. contains (tenant_role_permissions r) permission)
    else false

abbrev falses : List String → List Bool
falses permissions = map (λ _. false) permissions

abbrev granted_or_falses : Option TenantRole → List String → List Bool
granted_or_falses none permissions = falses permissions
granted_or_falses (some r) permissions = map (contains (tenant_role_permissions r)) permissions

unfoldable pub use_tenant_permissions : Option User → List String → List Bool
unfolding is_tenant_user
use_tenant_permissions none permissions = falses permissions
use_tenant_permissions (some u) permissions =
    if is_tenant_user (some u)
    then granted_or_falses u.tenant_role permissions
    else falses permissions

unfoldable pub use_any_tenant_permission : Option User → List String → Bool
use_any_tenant_permission user permissions = any (λ b. b) (use_tenant_permissions user permissions)

unfoldable pub use_all_tenant_permissions : Option User → List String → Bool
use_all_tenant_permissions user permissions = all (λ b. b) (use_tenant_permissions user permissions)

tenant_role_name : TenantRole → String
tenant_role_name TenantRole.owner = "owner"
tenant_role_name TenantRole.admin = "admin"
tenant_role_name TenantRole.member = "member"

-- The older name of a user's role; `user.role || 'member'` at the end.
unfoldable pub legacy_role : User → String
unfolding is_system_user tenant_role_name
legacy_role u = if is_system_user (some u) then "super_admin" else elim u.tenant_role [
  | some r ↦ tenant_role_name r
  | none ↦ if u.role == "" then "member" else u.role
]

unfoldable pub use_permission : Option User → String → Outcome Bool
unfolding has_in
use_permission none permission = returned false
use_permission (some u) permission = has_in (property role_permissions (legacy_role u)) permission

-- The results of a `map` whose function may throw; the first exception ends it.
collect : {A : Type 0} → (String → Outcome A) → List String → Outcome (List A)
collect f [] = returned []
collect f (p ∷ ps) = elim (f p) [
  | thrown ↦ thrown
  | returned a ↦ elim (collect f ps) [ thrown ↦ thrown | returned as' ↦ returned (a ∷ as') ]
]

abbrev has_each : Found (List String) → List String → Outcome (List Bool)
has_each missing permissions = returned (falses permissions)
has_each found permissions = collect (has_in found) permissions

unfoldable pub use_permissions : Option User → List String → Outcome (List Bool)
unfolding has_in collect
use_permissions none permissions = returned (falses permissions)
use_permissions (some u) permissions =
    has_each (property role_permissions (legacy_role u)) permissions
