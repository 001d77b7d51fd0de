-- ===== src/Auth/Laws.antt =====
-- How the predicates of frontend/src/types/auth.ts divide the users.
use harmony_saas_multitenanc.Base.{
  ℕ, ◌+◌, ◌≤◌, Bool, some, List, [], ◌∷◌, ◌≡◌, arith, if◌then◌else◌,
}
use harmony_saas_multitenanc.Auth.{
  User, is_system_user, is_tenant_user, is_system_admin, is_system_operator, is_tenant_owner,
  is_tenant_admin, is_tenant_member,
}

abbrev pub count_true : List Bool → ℕ
count_true [] = 0
count_true (b ∷ bs) = (if b then 1 else 0) + count_true bs

-- A user is of exactly one of the two kinds, system or tenant, and holds at most one of the five
-- roles; a system role needs a system user and a tenant role a tenant user.
pub roles_exclusive :
    (u : User)
    → (count_true (is_system_user (some u) ∷ is_tenant_user (some u) ∷ []) ≡ 1)
      × (count_true (is_system_admin (some u) ∷ is_system_operator (some u) ∷ [])
          ≤ count_true (is_system_user (some u) ∷ []))
      × (count_true
            (is_tenant_owner (some u) ∷ is_tenant_admin (some u) ∷ is_tenant_member (some u) ∷ [])
          ≤ count_true (is_tenant_user (some u) ∷ []))
unfolding is_system_user is_tenant_user is_system_admin is_system_operator is_tenant_owner
    is_tenant_admin is_tenant_member
roles_exclusive u = (ground arith, ground arith, ground arith)
