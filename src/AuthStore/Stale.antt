-- ===== src/AuthStore/Stale.antt =====
-- Two ways in which frontend/src/lib/store/authStore.ts mixes sessions: the tenant of an earlier login that a
-- system user's login leaves stored, and the features that arrive after the logout.
use harmony_saas_multitenanc.Base.{
  ◌<◌, String, true, false, none, some, List, ◌≡◌, ◌≢◌, refl, ◌∙◌, ap, eq_iff, returned, arith,
}
use harmony_saas_multitenanc.Auth.{Tenant, is_system_user}
use harmony_saas_multitenanc.Browser.{Browser, json, with_window, parse_stored}
use harmony_saas_multitenanc.Client.{
  Config, success, fresh, on_request, set_access_token, set_refresh_token, set_tenant_id,
  get_tenant_id,
}
use harmony_saas_multitenanc.Client.Laws.{client-window}
use harmony_saas_multitenanc.AuthApi
use harmony_saas_multitenanc.AuthApi.{
  LoginRequest, LoginResponse, Server, keep_login, get_stored_user, get_stored_tenant, forget,
}
use harmony_saas_multitenanc.AuthStore.{Store, started, check_auth, deliver_features, login, logout}
use harmony_saas_multitenanc.AuthStore.Session.{
  reload, login_reply, logged_in, after_login-success, check_auth-stored, stored_session,
  logout-browser,
}

-- What a login whose response names no tenant leaves of an earlier tenant.
kept_tenant :
    (r : LoginResponse) (b : Browser) (t : Tenant) (config : Config)
    → b.window ≡ true
    → r.tenant ≡ none
    → b.local.tenant ≡ some (json t)
    → b.local.tenant_id ≡ some t.id
    → t.id ≢ ""
    → (get_stored_tenant (keep_login r b) ≡ returned (some t))
      × ((on_request (keep_login r b) config).x_tenant_id ≡ some t.id)
unfolding keep_login get_stored_tenant parse_stored set_access_token set_refresh_token set_tenant_id
    on_request get_tenant_id
kept_tenant r b t config w nt ht hid ne = (ground arith, ground (arith, eq_iff t.id ""))

module _ {W : Type 0} (server : Server W) where
  -- A system user who logs in where the tenant of an earlier login is still stored has no tenant in
  -- the store, but every request names that tenant, and a reload of the page gives the user that tenant.
  pub system_login_keeps_stale_tenant :
      (request : LoginRequest) (s : Store W) (r : LoginResponse) (t : Tenant) (config : Config)
      → (login_reply server request s).0 ≡ success r
      → r.tenant ≡ none
      → is_system_user (some r.user) ≡ true
      → (login_reply server request s).1.window ≡ true
      → (login_reply server request s).1.local.tenant ≡ some (json t)
      → (login_reply server request s).1.local.tenant_id ≡ some t.id
      → t.id ≢ ""
      → ((logged_in server request s).auth.tenant ≡ none)
        × ((on_request (logged_in server request s).browser config).x_tenant_id ≡ some t.id)
        × ((after : Store W) × (check_auth (reload (logged_in server request s)) ≡ returned after)
            × (after.auth.tenant ≡ some t))
  unfolding login AuthApi.login
  system_login_keeps_stale_tenant request s r t config e nt sys w ht hid ne =
      let b = (login_reply server request s).1 in
      let (_, tenant_is, _, kept) =
        after_login-success (started s) (login_reply server request s) r e in
      let (stored, header) = kept_tenant r b t config w nt ht hid ne in
      let (after, restores, _, tenant', _) =
        check_auth-stored (reload (logged_in server request s)) r.user (some t)
          (ap get_stored_user kept ∙ (stored_session r b w).0) (ap get_stored_tenant kept ∙ stored)
          (rw sys refl) in
      (
        tenant_is ∙ nt,
        ap (λ (b : Browser). (on_request b config).x_tenant_id) kept ∙ header,
        (after, restores, tenant'),
      )

  -- A load of features that is under way at the logout puts the list of the user who left back into
  -- the store and into the storage when it ends.
  pub late_features_survive_logout :
      (s : Store W) (features : List String)
      → 0 < s.loads
      → s.browser.window ≡ true
      → let after = deliver_features (success (some features)) (logout server s).1 in
        (after.auth.is_authenticated ≡ false)
        × (after.auth.features ≡ features)
        × (after.browser.local.features ≡ some (json features))
  unfolding logout deliver_features
  late_features_survive_logout s features pending w =
      let e = logout-browser server s w in
      let open_window = client-window server.logout server.refresh fresh s.browser s.world ∙ w in
      (
        refl,
        refl,
        ap
              (λ (b : Browser).
                (with_window b (record b.local { features = some (json features) })).local.features)
              e
            ∙ rw open_window refl,
      )
