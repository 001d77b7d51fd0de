-- ===== src/Navigation/Routes.antt =====
-- frontend/src/components/layout/route-meta.ts: the tables of routes and the search in them. A table is a plain
-- object, and `missing` stands for `null`.
use Prim.Native.Char.{code}
use Prim.Native.Char.{Char}
use Prim.Native.String
use harmony_saas_multitenanc.Base.{
  ℕ, zero, suc, String, Option, some, List, [], ◌∷◌, ◌==◌, if◌then◌else◌, nat_eq, length, take,
  Found, own, inherited, missing, property,
}

pub record RouteMeta : Type 0 where
  pub title : String
  pub description : Option String

abbrev meta : String → String → RouteMeta
meta title description = record { title = title; description = some description }

unfoldable pub admin_route_meta : List (String × RouteMeta)
admin_route_meta =
    ("/admin", meta "Dashboard" "System overview and statistics")
    ∷ ("/admin/tenants", meta "Tenants" "Manage tenant organizations")
    ∷ ("/admin/users", meta "All Users" "Manage system users")
    ∷ ("/admin/subscriptions", meta "Subscriptions" "Manage subscription requests")
    ∷ ("/admin/pricing", meta "Pricing" "Configure subscription tiers")
    ∷ ("/admin/billing", meta "Billing" "Transaction command center")
    ∷ ("/admin/analytics", meta "Analytics" "Revenue and usage analytics")
    ∷ ("/admin/logs", meta "Audit Logs" "System activity logs")
    ∷ ("/admin/tools", meta "Developer Tools" "Development utilities")
    ∷ ("/admin/coupons", meta "Coupons" "Manage discount codes")
    ∷ []

unfoldable pub dashboard_route_meta : List (String × RouteMeta)
dashboard_route_meta =
    ("/dashboard", meta "Dashboard" "Overview and quick actions")
    ∷ ("/branches", meta "Branches" "Manage branch locations")
    ∷ ("/users", meta "Users" "Manage team members")
    ∷ ("/usage", meta "Usage" "API usage and quotas")
    ∷ ("/settings", meta "Settings" "Organization settings")
    ∷ ("/upgrade", meta "Upgrade" "Subscription plans")
    ∷ ("/audit-logs", meta "Audit Logs" "Activity history")
    ∷ ("/profile", meta "Profile" "Your account settings")
    ∷ []

-- `text.split('/')`
glue : Char → List String → List String
glue c [] = (String.◌∷◌ c "") ∷ []
glue c (x ∷ xs) = (String.◌∷◌ c x) ∷ xs

unfoldable pub split_slash : String → List String
unfolding glue
split_slash String.[] = "" ∷ []
split_slash (String.◌∷◌ c s) =
    let rest = split_slash s in if nat_eq (code c) b'/' then "" ∷ rest else glue c rest

-- `.filter(Boolean)`
abbrev non_empty : List String → List String
non_empty [] = []
non_empty (x ∷ xs) = let rest = non_empty xs in if x == "" then rest else x ∷ rest

unfoldable pub segments : String → List String
segments pathname = non_empty (split_slash pathname)

-- `.join('/')`
unfoldable pub join_slash : List String → String
join_slash [] = ""
join_slash (x ∷ []) = x
join_slash (x ∷ y ∷ xs) = String.◌++◌ x (String.◌++◌ "/" (join_slash (y ∷ xs)))

unfoldable pub prefix_at : List String → ℕ → String
prefix_at segments i = String.◌++◌ "/" (join_slash (take i segments))

-- `if (found) return found`, and what is tried after it
unfoldable pub or_else {ℓ} : {A : Type ℓ} → Found A → Found A → Found A
or_else (own v) other = own v
or_else inherited other = inherited
or_else missing other = other

unfoldable pub match_prefix : List (String × RouteMeta) → List String → ℕ → Found RouteMeta
match_prefix route_map segments zero = missing
match_prefix route_map segments (suc i) =
    or_else (property route_map (prefix_at segments (suc i))) (match_prefix route_map segments i)

unfoldable pub get_route_meta : String → List (String × RouteMeta) → Found RouteMeta
get_route_meta pathname route_map =
    let parts = segments pathname in
    or_else (property route_map pathname) (match_prefix route_map parts (length parts))
