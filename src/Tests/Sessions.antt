-- ===== src/Tests/Sessions.antt =====
-- Requests and sessions with a concrete server.
use harmony_saas_multitenanc.Base.{
  ℕ, ◌≡◌, refl, true, false, none, some, inl, [], ◌∷◌, returned, arith, eq_iff,
}
use harmony_saas_multitenanc.Auth.{is_system_user}
use harmony_saas_multitenanc.Browser.{cleared, json}
use harmony_saas_multitenanc.Client.Steps.{refreshing, advance}
use harmony_saas_multitenanc.Client.{
  bearer, fresh, success, on_request, client, client_step, on_reply, on_error, after_refresh,
  is_unauthorized, get_refresh_token, get_access_token, get_tenant_id, get_branch_id,
  set_access_token, set_refresh_token,
}
use harmony_saas_multitenanc.Client.Laws.{client_recursion}
use harmony_saas_multitenanc.AuthStore.Races.{late_refresh_survives_logout}
use harmony_saas_multitenanc.Client.Trace.{Ending, log_send, log_refresh, client-Ending}
use harmony_saas_multitenanc.AuthApi.{LoginRequest}
use harmony_saas_multitenanc.AuthStore.{Store, login, logout, check_auth, deliver_features}
use harmony_saas_multitenanc.AuthStore.Session.{
  reload, logged_in, SameSession, logout_leaves_nothing, login_survives_reload,
}
use harmony_saas_multitenanc.AuthStore.Stale.{
  system_login_keeps_stale_tenant, late_features_survive_logout,
}
use harmony_saas_multitenanc.AuthStore.Invariant.{
  IsSound, here, next, logs_in, logs_out, Reach-IsSound,
}
use harmony_saas_multitenanc.Tests.Sample.{
  server, used_browser, blank_browser, start, shop, owner_user, answer_login,
}

-- The old token is refused, renewed, and the request is sent again.
me_renewed : client server.me server.refresh fresh used_browser 0 ≡ (
  success owner_user,
  record used_browser {
    local = record used_browser.local { access_token = some "a2"; refresh_token = some "r2" };
  },
  3,
)
unfolding client client_step on_reply on_error after_refresh on_request is_unauthorized
    get_refresh_token get_access_token get_tenant_id get_branch_id set_access_token
    set_refresh_token
me_renewed = refl

client_recursion_example :
    client server.me server.refresh fresh used_browser 0
    ≡ client_step server.me server.refresh (client server.me server.refresh) fresh used_browser 0
client_recursion_example = client_recursion server.me server.refresh fresh used_browser 0

client-Ending_example :
    let end = client (log_send server.me) (log_refresh server.refresh) fresh used_browser (0, []) in
    Ending fresh used_browser end.1 [] end.2.1
client-Ending_example = client-Ending server.me server.refresh fresh used_browser 0 []

logout_leaves_nothing_example :
    let after = (logout server (start used_browser)).1 in
    (after.auth.user ≡ none)
    × (after.auth.is_authenticated ≡ false)
    × (after.auth.features ≡ [])
    × (after.browser.local ≡ cleared)
    × (on_request after.browser fresh ≡ fresh)
logout_leaves_nothing_example = logout_leaves_nothing server (start used_browser) fresh refl

abbrev owner_login : LoginRequest
owner_login = record { email = "owner"; password = "p"; tenant_subdomain = none }

abbrev operator_login : LoginRequest
operator_login = record owner_login { email = "operator" }

login_survives_reload_example :
    (after : Store ℕ) × (check_auth (reload (logged_in server owner_login (start blank_browser)))
      ≡ returned after)
    × SameSession after.auth (logged_in server owner_login (start blank_browser)).auth
    × (after.auth.is_authenticated ≡ true)
unfolding client client_step on_reply on_request is_system_user get_access_token get_tenant_id
    get_branch_id
login_survives_reload_example =
    login_survives_reload server owner_login (start blank_browser) (answer_login owner_login) refl
      (refl, inl refl, refl)

system_login_keeps_stale_tenant_example :
    ((logged_in server operator_login (start used_browser)).auth.tenant ≡ none)
    × ((on_request (logged_in server operator_login (start used_browser)).browser fresh).x_tenant_id
        ≡ some "t1")
    × ((after : Store ℕ) × (check_auth
            (reload (logged_in server operator_login (start used_browser)))
          ≡ returned after)
        × (after.auth.tenant ≡ some shop))
unfolding client client_step on_reply on_request is_system_user get_access_token get_tenant_id
    get_branch_id
system_login_keeps_stale_tenant_example =
    system_login_keeps_stale_tenant server operator_login (start used_browser)
      (answer_login operator_login) shop fresh refl refl refl refl refl refl
      (ground (arith, eq_iff "t1" ""))

late_features_survive_logout_example :
    let s = record (start used_browser) { loads = 1 } in
    let after = deliver_features (success (some ("pos.shifts" ∷ []))) (logout server s).1 in
    (after.auth.is_authenticated ≡ false)
    × (after.auth.features ≡ "pos.shifts" ∷ [])
    × (after.browser.local.features ≡ some (json ("pos.shifts" ∷ [])))
late_features_survive_logout_example =
    late_features_survive_logout server (record (start used_browser) { loads = 1 })
      ("pos.shifts" ∷ []) (omega arith) refl

late_refresh_survives_logout_example :
    let after = (logout server (start used_browser)).1 in
    let b =
      (advance server.me server.refresh (refreshing fresh "r1", after.browser, after.world)).1 in
    (after.auth.is_authenticated ≡ false)
    × (b.local.access_token ≡ some "a2")
    × (b.local.refresh_token ≡ some "r2")
    × ((on_request b fresh).authorization ≡ some (bearer "a2"))
late_refresh_survives_logout_example =
    late_refresh_survives_logout server server.me (start used_browser) fresh fresh "r1"
      (record { access_token = "a2"; refresh_token = "r2" }) refl refl refl

Reach-IsSound_example : IsSound (logout server (login server owner_login (start blank_browser)).1).1
Reach-IsSound_example =
    Reach-IsSound server {s = start blank_browser} refl
      (next (next here (logs_in owner_login)) logs_out)
