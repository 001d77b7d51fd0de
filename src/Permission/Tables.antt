-- ===== src/Permission/Tables.antt =====
-- The permission names and the tables of roles of frontend/src/hooks/use-permission.ts. A member of a
-- union of string literals is its text, and a `Set` built from an array is that list.
use harmony_saas_multitenanc.Base.{String, List, [], ◌∷◌}
use harmony_saas_multitenanc.Auth.{SystemRole, TenantRole}

-- The union `SystemPermission`.
unfoldable pub system_permissions : List String
system_permissions =
    "system.tenants.view" ∷ "system.tenants.create" ∷ "system.tenants.update"
    ∷ "system.tenants.delete" ∷ "system.tenants.impersonate" ∷ "system.billing.view"
    ∷ "system.billing.manage" ∷ "system.tiers.view" ∷ "system.tiers.manage" ∷ "system.coupons.view"
    ∷ "system.coupons.manage" ∷ "system.payment_methods.view" ∷ "system.payment_methods.manage"
    ∷ "system.users.view" ∷ "system.users.create" ∷ "system.users.update" ∷ "system.users.delete"
    ∷ "system.tools.access" ∷ "system.settings.view" ∷ "system.settings.manage"
    ∷ "system.audit.view" ∷ "system.audit.manage" ∷ "system.revenue.view" ∷ "system.usage.view"
    ∷ "system.usage.manage" ∷ []

-- The union `TenantPermission`.
unfoldable pub tenant_permissions : List String
tenant_permissions =
    "tenant.settings.view" ∷ "tenant.settings.edit" ∷ "tenant.billing.view"
    ∷ "tenant.billing.manage" ∷ "tenant.account.delete" ∷ "tenant.users.view"
    ∷ "tenant.users.create" ∷ "tenant.users.update" ∷ "tenant.users.delete" ∷ "tenant.users.invite"
    ∷ "tenant.users.change_role" ∷ "tenant.branches.view" ∷ "tenant.branches.create"
    ∷ "tenant.branches.update" ∷ "tenant.branches.delete" ∷ "tenant.audit.view"
    ∷ "tenant.files.view" ∷ "tenant.files.upload" ∷ "tenant.files.delete" ∷ "tenant.dashboard.view"
    ∷ "tenant.stats.view" ∷ "tenant.usage.view" ∷ []

-- The union `Permission` of the older names.
unfoldable pub legacy_permissions : List String
legacy_permissions =
    "users.view" ∷ "users.create" ∷ "users.update" ∷ "users.delete" ∷ "users.invite"
    ∷ "users.change_role" ∷ "branches.view" ∷ "branches.create" ∷ "branches.update"
    ∷ "branches.delete" ∷ "settings.view" ∷ "settings.update" ∷ "audit.view" ∷ "dashboard.view"
    ∷ "stats.view" ∷ "files.view" ∷ "files.upload" ∷ "files.delete" ∷ []

unfoldable pub system_role_permissions : SystemRole → List String
system_role_permissions SystemRole.admin =
    "system.tenants.view" ∷ "system.tenants.create" ∷ "system.tenants.update"
    ∷ "system.tenants.delete" ∷ "system.tenants.impersonate" ∷ "system.billing.view"
    ∷ "system.billing.manage" ∷ "system.tiers.view" ∷ "system.tiers.manage" ∷ "system.coupons.view"
    ∷ "system.coupons.manage" ∷ "system.payment_methods.view" ∷ "system.payment_methods.manage"
    ∷ "system.users.view" ∷ "system.users.create" ∷ "system.users.update" ∷ "system.users.delete"
    ∷ "system.tools.access" ∷ "system.settings.view" ∷ "system.settings.manage"
    ∷ "system.audit.view" ∷ "system.audit.manage" ∷ "system.revenue.view" ∷ "system.usage.view"
    ∷ "system.usage.manage" ∷ []
system_role_permissions SystemRole.operator =
    "system.tenants.view" ∷ "system.billing.view" ∷ "system.tiers.view" ∷ "system.coupons.view"
    ∷ "system.payment_methods.view" ∷ "system.users.view" ∷ "system.settings.view"
    ∷ "system.audit.view" ∷ "system.revenue.view" ∷ "system.usage.view" ∷ []

unfoldable pub tenant_role_permissions : TenantRole → List String
tenant_role_permissions TenantRole.owner =
    "tenant.settings.view" ∷ "tenant.settings.edit" ∷ "tenant.billing.view"
    ∷ "tenant.billing.manage" ∷ "tenant.account.delete" ∷ "tenant.users.view"
    ∷ "tenant.users.create" ∷ "tenant.users.update" ∷ "tenant.users.delete" ∷ "tenant.users.invite"
    ∷ "tenant.users.change_role" ∷ "tenant.branches.view" ∷ "tenant.branches.create"
    ∷ "tenant.branches.update" ∷ "tenant.branches.delete" ∷ "tenant.audit.view"
    ∷ "tenant.files.view" ∷ "tenant.files.upload" ∷ "tenant.files.delete" ∷ "tenant.dashboard.view"
    ∷ "tenant.stats.view" ∷ "tenant.usage.view" ∷ []
tenant_role_permissions TenantRole.admin =
    "tenant.settings.view" ∷ "tenant.settings.edit" ∷ "tenant.billing.view" ∷ "tenant.users.view"
    ∷ "tenant.users.create" ∷ "tenant.users.update" ∷ "tenant.users.delete" ∷ "tenant.users.invite"
    ∷ "tenant.users.change_role" ∷ "tenant.branches.view" ∷ "tenant.branches.create"
    ∷ "tenant.branches.update" ∷ "tenant.branches.delete" ∷ "tenant.audit.view"
    ∷ "tenant.files.view" ∷ "tenant.files.upload" ∷ "tenant.files.delete" ∷ "tenant.dashboard.view"
    ∷ "tenant.stats.view" ∷ "tenant.usage.view" ∷ []
tenant_role_permissions TenantRole.member =
    "tenant.settings.view" ∷ "tenant.users.view" ∷ "tenant.branches.view" ∷ "tenant.files.view"
    ∷ "tenant.files.upload" ∷ "tenant.dashboard.view" ∷ "tenant.usage.view" ∷ []

-- `ROLE_PERMISSIONS`, keyed by the name of a role.
unfoldable pub role_permissions : List (String × List String)
role_permissions =
    (
      "super_admin",
      "users.view" ∷ "users.create" ∷ "users.update" ∷ "users.delete" ∷ "users.invite"
          ∷ "users.change_role" ∷ "branches.view" ∷ "branches.create" ∷ "branches.update"
          ∷ "branches.delete" ∷ "settings.view" ∷ "settings.update" ∷ "audit.view"
          ∷ "dashboard.view" ∷ "stats.view" ∷ "files.view" ∷ "files.upload" ∷ "files.delete" ∷ [],
    )
    ∷ (
      "owner",
      "users.view" ∷ "users.create" ∷ "users.update" ∷ "users.delete" ∷ "users.invite"
          ∷ "users.change_role" ∷ "branches.view" ∷ "branches.create" ∷ "branches.update"
          ∷ "branches.delete" ∷ "settings.view" ∷ "settings.update" ∷ "audit.view"
          ∷ "dashboard.view" ∷ "stats.view" ∷ "files.view" ∷ "files.upload" ∷ "files.delete" ∷ [],
    )
    ∷ (
      "admin",
      "users.view" ∷ "users.create" ∷ "users.update" ∷ "users.delete" ∷ "users.invite"
          ∷ "users.change_role" ∷ "branches.view" ∷ "branches.create" ∷ "branches.update"
          ∷ "branches.delete" ∷ "settings.view" ∷ "settings.update" ∷ "audit.view"
          ∷ "dashboard.view" ∷ "stats.view" ∷ "files.view" ∷ "files.upload" ∷ "files.delete" ∷ [],
    )
    ∷ (
      "member",
      "users.view" ∷ "branches.view" ∷ "dashboard.view" ∷ "files.view" ∷ "files.upload" ∷ [],
    )
    ∷ (
      "staff",
      "users.view" ∷ "branches.view" ∷ "dashboard.view" ∷ "files.view" ∷ "files.upload" ∷ [],
    )
    ∷ []
