-- ===== src/Permission/Hierarchy.antt =====
-- What one role of frontend/src/hooks/use-permission.ts may do beside another. The tables are compared
-- once, by evaluation; the theorems hold of every text that is asked for.
use harmony_saas_multitenanc.Base.{
  String, Bool, true, not, ◌&&◌, ◌||◌, ◌≡◌, refl, List, [], ◌∷◌, ◌==◌, contains, contains-subset,
  contains-filter, contains-ext,
}
use harmony_saas_multitenanc.Auth.{SystemRole, TenantRole}
use harmony_saas_multitenanc.Permission.Tables.{
  system_permissions, tenant_permissions, system_role_permissions, tenant_role_permissions,
}
use harmony_saas_multitenanc.Permission.{has_system_permission, has_tenant_permission}

-- `s.endsWith(t)`
pub ends_with : String → String → Bool
ends_with String.[] t = String.[] == t
ends_with (String.◌∷◌ c s) t = String.◌∷◌ c s == t || ends_with s t

-- The platform administrator has exactly the permissions that the union SystemPermission declares, and a
-- platform operator exactly those of them that end in ".view".
pub system_roles_nested :
    (permission : String)
    → (has_system_permission SystemRole.admin permission ≡ contains system_permissions permission)
      × (has_system_permission SystemRole.operator permission
          ≡ (has_system_permission SystemRole.admin permission && ends_with permission ".view"))
unfolding has_system_permission
system_roles_nested permission = (
  contains-ext (system_role_permissions SystemRole.admin) system_permissions permission
      (unfold system_role_permissions system_permissions contains in refl)
      (unfold system_role_permissions system_permissions contains in refl),
  contains-filter (system_role_permissions SystemRole.operator)
      (system_role_permissions SystemRole.admin) (λ q. ends_with q ".view") permission
      (unfold system_role_permissions contains ends_with in refl)
      (unfold system_role_permissions contains ends_with in refl),
)

-- What an owner does not share with the administrators of the tenant.
abbrev pub reserved : List String
reserved = "tenant.billing.manage" ∷ "tenant.account.delete" ∷ []

-- The tenant owner has exactly the permissions that the union TenantPermission declares, a tenant
-- administrator the owner's except tenant.billing.manage and tenant.account.delete, and every permission
-- of a member is one of the administrator's.
pub tenant_roles_nested :
    (permission : String)
    → (has_tenant_permission TenantRole.owner permission ≡ contains tenant_permissions permission)
      × (has_tenant_permission TenantRole.admin permission ≡ (
          has_tenant_permission TenantRole.owner permission && not (contains reserved permission)))
      × (has_tenant_permission TenantRole.member permission ≡ true
          → has_tenant_permission TenantRole.admin permission ≡ true)
unfolding has_tenant_permission
tenant_roles_nested permission = (
  contains-ext (tenant_role_permissions TenantRole.owner) tenant_permissions permission
      (unfold tenant_role_permissions tenant_permissions contains in refl)
      (unfold tenant_role_permissions tenant_permissions contains in refl),
  contains-filter (tenant_role_permissions TenantRole.admin)
      (tenant_role_permissions TenantRole.owner) (λ q. not (contains reserved q)) permission
      (unfold tenant_role_permissions contains in refl)
      (unfold tenant_role_permissions contains in refl),
  contains-subset (tenant_role_permissions TenantRole.member)
      (tenant_role_permissions TenantRole.admin) permission
      (unfold tenant_role_permissions contains in refl),
)
