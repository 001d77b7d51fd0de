-- ===== src/Permission/Scopes.antt =====
-- The two scopes of permissions, and the checks of several permissions at once.
use harmony_saas_multitenanc.Base.{
  String, Bool, true, false, ◌≡◌, refl, Option, none, some, List, [], ◌∷◌, map, arith, any, all, ap,
  ◌∙◌, contains,
}
use harmony_saas_multitenanc.Auth.{User, is_tenant_user, can_manage_billing, can_delete_account}
use harmony_saas_multitenanc.Permission.Tables.{tenant_role_permissions}
use harmony_saas_multitenanc.Permission.{
  use_system_permission, use_tenant_permission, use_tenant_permissions, use_any_tenant_permission,
  use_all_tenant_permissions,
}

-- No user passes a check of a system permission and a check of a tenant permission.
pub scopes_disjoint :
    (user : Option User) (system tenant : String)
    → use_system_permission user system ≡ true
    → use_tenant_permission user tenant ≡ false
unfolding use_system_permission use_tenant_permission is_tenant_user
scopes_disjoint user system tenant h = ground arith

-- The check of a list answers, permission by permission, as the check of one does.
pub use_tenant_permissions-map :
    (user : Option User) (permissions : List String)
    → use_tenant_permissions user permissions ≡ map (use_tenant_permission user) permissions
unfolding use_tenant_permissions use_tenant_permission
use_tenant_permissions-map none permissions = refl
use_tenant_permissions-map (some u) [] = ground arith
use_tenant_permissions-map (some u) (p ∷ ps) =
    ground (arith, use_tenant_permissions-map (some u) ps)

any-map : (f : String → Bool) (ps : List String) → any (λ b. b) (map f ps) ≡ any f ps
any-map f [] = refl
any-map f (p ∷ ps) = ground (arith, any-map f ps)

all-map : (f : String → Bool) (ps : List String) → all (λ b. b) (map f ps) ≡ all f ps
all-map f [] = refl
all-map f (p ∷ ps) = ground (arith, all-map f ps)

-- `useAnyTenantPermission` and `useAllTenantPermissions` are "some" and "every" of the single check,
-- for each user, also for none at all.
pub any-all_pointwise :
    (user : Option User) (permissions : List String)
    → (use_any_tenant_permission user permissions ≡ any (use_tenant_permission user) permissions)
      × (use_all_tenant_permissions user permissions ≡ all (use_tenant_permission user) permissions)
unfolding use_any_tenant_permission use_all_tenant_permissions
any-all_pointwise user permissions = (
  ap (any (λ b. b)) (use_tenant_permissions-map user permissions) ∙ any-map _ permissions,
  ap (all (λ b. b)) (use_tenant_permissions-map user permissions) ∙ all-map _ permissions,
)

-- The predicates of types/auth.ts that guard billing and the account agree with the permissions.
pub billing_guards_agree :
    (user : Option User)
    → (can_manage_billing user ≡ use_tenant_permission user "tenant.billing.manage")
      × (can_delete_account user ≡ use_tenant_permission user "tenant.account.delete")
unfolding can_manage_billing can_delete_account use_tenant_permission tenant_role_permissions
    contains
billing_guards_agree user = (ground arith, ground arith)
