-- ===== src/Tests/Access.antt =====
-- Permissions and roles at concrete users.
use harmony_saas_multitenanc.Base.{
  ◌≡◌, refl, true, false, some, [], ◌∷◌, returned, contains, lookup, property,
}
use harmony_saas_multitenanc.Auth.{TenantRole, is_tenant_user}
use harmony_saas_multitenanc.Permission.{
  use_tenant_permission, use_permission, legacy_role, use_permissions,
}
use harmony_saas_multitenanc.Permission.Tables.{role_permissions}
use harmony_saas_multitenanc.Permission.Legacy.{renamed, legacy_implies_tenant}
use harmony_saas_multitenanc.Tests.Sample.{owner_user, nobody}

legacy_implies_tenant_example :
    use_tenant_permission (some owner_user) (renamed "settings.update") ≡ true
legacy_implies_tenant_example =
    legacy_implies_tenant owner_user TenantRole.owner "settings.update"
      (unfold is_tenant_user in refl) refl
      (unfold use_permission legacy_role property lookup role_permissions contains in refl)

-- A user of a tenant with no role of the new kind goes by the old name, "member" if it is empty.
roleless :
    use_permissions
      (some (record nobody { tenant_id = some "t1" }))
      ("files.upload" ∷ "files.delete" ∷ [])
    ≡ returned (true ∷ false ∷ [])
unfolding use_permissions legacy_role property lookup role_permissions contains
roleless = refl
