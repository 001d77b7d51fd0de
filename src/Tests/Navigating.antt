-- ===== src/Tests/Navigating.antt =====
-- Routes, menus and redirects at concrete pathnames.
use harmony_saas_multitenanc.Base.{
  ℕ, lookup, property, ◌≡◌, ◌≤◌, refl, true, false, none, some, own, length, contains, [], ◌∷◌,
  returned,
}
use harmony_saas_multitenanc.Navigation.Routes.{
  admin_route_meta, get_route_meta, segments, split_slash, join_slash, prefix_at, or_else,
  match_prefix,
}
use harmony_saas_multitenanc.Navigation.Sidebar.{
  admin, dashboard, navigation, admin_base_navigation, admin_dev_navigation,
}
use harmony_saas_multitenanc.Navigation.Menu.{active_items, active_link_unique}
use harmony_saas_multitenanc.Navigation.Redirects.{
  Visit, rerenders, arrives, redirects, turns, mount,
}
use harmony_saas_multitenanc.Navigation.Redirects.Settling.{redirects_settle}
use harmony_saas_multitenanc.AuthStore.{Store, initial, check_auth}
use harmony_saas_multitenanc.Auth.{is_system_user}
use harmony_saas_multitenanc.AuthApi.{get_stored_user, get_stored_tenant}
use harmony_saas_multitenanc.Browser.{parse_stored}
use harmony_saas_multitenanc.Tests.Sample.{used_browser, owner_user, shop, start}

tenant_page :
    get_route_meta "/admin/tenants/12" admin_route_meta
    ≡ own (record { title = "Tenants"; description = some "Manage tenant organizations" })
unfolding get_route_meta admin_route_meta segments split_slash join_slash prefix_at or_else
    match_prefix property lookup contains
tenant_page = refl

-- The page of a user, under the item of the users.
active_link_unique_example :
    length (active_items "/users/7" (navigation dashboard false (some owner_user))) ≤ 1
active_link_unique_example = active_link_unique dashboard false (some owner_user) "/users/7"

-- Every item is counted.
admin_items : length (navigation admin true none) ≡ 10
unfolding navigation admin_base_navigation admin_dev_navigation
admin_items = refl

abbrev signed_in : Store ℕ
signed_in = record (start used_browser) {
  auth = record initial { user = some owner_user; tenant = some shop; is_authenticated = true };
  loads = 1;
}

-- A reload of the users with a session; the navigation to the login page arrives before the next render.
redirects_settle_example :
    (redirects true "/dashboard" ≡ [])
    × ((v : Visit) × (mount (start used_browser) "/users" ≡ returned (signed_in, v))
        × (turns (rerenders ∷ arrives ∷ arrives ∷ []) (turns (arrives ∷ []) v) ≡ record {
          session = true;
          is_authenticated = true;
          pathname = "/dashboard";
          pushed = none;
        }))
unfolding check_auth get_stored_user get_stored_tenant parse_stored is_system_user
redirects_settle_example =
    redirects_settle (start used_browser) signed_in "/users" (arrives ∷ []) refl refl
