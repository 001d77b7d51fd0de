-- ===== src/Permission/Legacy.antt =====
-- The older checks of frontend/src/hooks/use-permission.ts, beside the ones that replace them.
use Prim.Native.String
use harmony_saas_multitenanc.Base.{
  String, true, false, not, ◌≡◌, ◌↔◌, ◌∙◌, refl, none, some, List, [], arith, ◌==◌, contains,
  all-contains, lookup, property, keys, contains-keys, returned, thrown, own, Option-cases,
  prototype_keys, if◌then◌else◌, inl, inr, all,
}
use harmony_saas_multitenanc.Auth.{User, TenantRole, is_tenant_user}
use harmony_saas_multitenanc.Permission.Tables.{role_permissions, tenant_role_permissions}
use harmony_saas_multitenanc.Permission.{
  has_permission, legacy_role, use_permission, use_tenant_permission, tenant_role_name,
}

-- The name that a permission of the older list has today.
abbrev pub renamed : String → String
renamed permission =
    if permission == "settings.update"
    then "tenant.settings.edit"
    else String.◌++◌ "tenant." permission

-- The older permissions of a role of tenants.
legacy_row : TenantRole → List String
legacy_row role = elim (lookup (tenant_role_name role) role_permissions) [
  | some perms ↦ perms
  | none ↦ []
]

property-row :
    (role : TenantRole) → property role_permissions (tenant_role_name role) ≡ own (legacy_row role)
unfolding legacy_row tenant_role_name property lookup role_permissions
property-row TenantRole.owner = refl
property-row TenantRole.admin = refl
property-row TenantRole.member = refl

legacy_role-tenant :
    (u : User) (role : TenantRole)
    → is_tenant_user (some u) ≡ true
    → u.tenant_role ≡ some role
    → legacy_role u ≡ tenant_role_name role
unfolding legacy_role is_tenant_user
legacy_role-tenant u role h k = ground arith

use_permission-row :
    (u : User) (role : TenantRole) (permission : String)
    → legacy_role u ≡ tenant_role_name role
    → use_permission (some u) permission ≡ returned (contains (legacy_row role) permission)
unfolding use_permission
use_permission-row u role permission e = rw (e, property-row role)

row-renamed :
    (role : TenantRole)
    → all (λ q. contains (tenant_role_permissions role) (renamed q)) (legacy_row role) ≡ true
unfolding legacy_row tenant_role_name lookup role_permissions tenant_role_permissions contains
row-renamed TenantRole.owner = refl
row-renamed TenantRole.admin = refl
row-renamed TenantRole.member = refl

-- Where the older check admits a user of a tenant with a tenant role, the check of today admits the
-- user under the new name of the permission.
pub legacy_implies_tenant :
    (u : User) (role : TenantRole) (permission : String)
    → is_tenant_user (some u) ≡ true
    → u.tenant_role ≡ some role
    → use_permission (some u) permission ≡ returned true
    → use_tenant_permission (some u) (renamed permission) ≡ true
unfolding use_tenant_permission is_tenant_user
legacy_implies_tenant u role permission h k e =
    let admitted : contains (legacy_row role) permission ≡ true =
      cc (use_permission-row u role permission (legacy_role-tenant u role h k)) in
    let today =
      all-contains (λ q. contains (tenant_role_permissions role) (renamed q)) (legacy_row role)
        permission (row-renamed role) admitted in
    ground arith

own-not_inherited :
    (role : String) {perms : List String}
    → lookup role role_permissions ≡ some perms
    → contains prototype_keys role ≡ false
own-not_inherited role found =
    let named : contains (keys role_permissions) role ≡ true =
      contains-keys role_permissions role ∙ rw found in
    let e =
      all-contains (λ k. not (contains prototype_keys k)) (keys role_permissions) role
        (unfold keys role_permissions contains in refl) named in
    ground arith

-- The check of a role by its name throws exactly for the names that every object inherits.
pub has_permission-throws :
    (role permission : String)
    → (has_permission role permission ≡ thrown) ↔ (contains prototype_keys role ≡ true)
unfolding has_permission property
has_permission-throws role permission = elim (Option-cases (lookup role role_permissions)) [
  | inl absent ↦ ground arith
  | inr (perms, found) ↦ let e = own-not_inherited role found in ground arith
]
