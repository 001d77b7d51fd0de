-- ===== src/Navigation/Sidebar.antt =====
-- frontend/src/components/layout/AppSidebar.tsx: the items of the sidebar, without their icons, and which of them is
-- the active one.
use Prim.Native.String
use harmony_saas_multitenanc.Base.{
  String, Bool, true, false, Option, none, some, List, [], ◌∷◌, ◌++◌, ◌==◌, ◌||◌, if◌then◌else◌,
  starts_with, lookup,
}
use harmony_saas_multitenanc.Auth.{User}
use harmony_saas_multitenanc.Permission.{use_tenant_permission}

pub record NavItem : Type 0 where
  pub name : String
  pub href : String
  pub permission : Option String

abbrev item : String → String → Option String → NavItem
item name href permission = record { name = name; href = href; permission = permission }

unfoldable pub admin_base_navigation : List NavItem
admin_base_navigation =
    item "Dashboard" "/admin" none
    ∷ item "Tenants" "/admin/tenants" none
    ∷ item "All Users" "/admin/users" none
    ∷ item "Subscriptions" "/admin/subscriptions" none
    ∷ item "Pricing" "/admin/pricing" none
    ∷ item "Billing" "/admin/billing" none
    ∷ item "Analytics" "/admin/analytics" none
    ∷ item "Permissions" "/admin/permissions" none
    ∷ item "Audit Logs" "/admin/logs" none
    ∷ []

unfoldable pub admin_dev_navigation : List NavItem
admin_dev_navigation = item "Developer Tools" "/admin/tools" none ∷ []

unfoldable pub dashboard_navigation : List NavItem
dashboard_navigation =
    item "Dashboard" "/dashboard" (some "tenant.dashboard.view")
    ∷ item "Branches" "/branches" (some "tenant.branches.view")
    ∷ item "Users" "/users" (some "tenant.users.view")
    ∷ item "Usage" "/usage" (some "tenant.usage.view")
    ∷ item "Settings" "/settings" (some "tenant.settings.view")
    ∷ item "Audit Logs" "/audit-logs" (some "tenant.audit.view")
    ∷ []

unfoldable pub is_active_link : String → String → Bool
is_active_link pathname href =
    if href == "/admin" || href == "/dashboard"
    then pathname == href
    else (if pathname == href then true else starts_with pathname (String.◌++◌ href "/"))

unfoldable pub permission_map : Option User → List (String × Bool)
permission_map user =
    ("tenant.dashboard.view", use_tenant_permission user "tenant.dashboard.view")
    ∷ ("tenant.branches.view", use_tenant_permission user "tenant.branches.view")
    ∷ ("tenant.users.view", use_tenant_permission user "tenant.users.view")
    ∷ ("tenant.usage.view", use_tenant_permission user "tenant.usage.view")
    ∷ ("tenant.settings.view", use_tenant_permission user "tenant.settings.view")
    ∷ ("tenant.audit.view", use_tenant_permission user "tenant.audit.view")
    ∷ ("tenant.settings.edit", false)
    ∷ ("tenant.billing.view", false)
    ∷ ("tenant.billing.manage", false)
    ∷ ("tenant.account.delete", false)
    ∷ ("tenant.users.create", false)
    ∷ ("tenant.users.update", false)
    ∷ ("tenant.users.delete", false)
    ∷ ("tenant.users.invite", false)
    ∷ ("tenant.users.change_role", false)
    ∷ ("tenant.branches.create", false)
    ∷ ("tenant.branches.update", false)
    ∷ ("tenant.branches.delete", false)
    ∷ ("tenant.files.view", false)
    ∷ ("tenant.files.upload", false)
    ∷ ("tenant.files.delete", false)
    ∷ ("tenant.stats.view", false)
    ∷ []

-- `permissionMap[item.permission]` as a condition
abbrev is_true : Option Bool → Bool
is_true none = false
is_true (some b) = b

unfoldable pub is_shown : Option User → NavItem → Bool
is_shown user i = elim i.permission [
  | none ↦ true
  | some p ↦ if p == "" then true else is_true (lookup p (permission_map user))
]

unfoldable pub filter_items : (NavItem → Bool) → List NavItem → List NavItem
filter_items keep [] = []
filter_items keep (i ∷ is) = let rest = filter_items keep is in if keep i then i ∷ rest else rest

pub data Variant : Type 0 where
  admin dashboard : Variant

unfoldable pub navigation : Variant → Bool → Option User → List NavItem
navigation admin dev_mode user =
    if dev_mode then admin_base_navigation ++ admin_dev_navigation else admin_base_navigation
navigation dashboard dev_mode user = filter_items (is_shown user) dashboard_navigation
