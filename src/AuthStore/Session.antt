-- ===== src/AuthStore/Session.antt =====
-- What a session of frontend/src/lib/store/authStore.ts keeps over a reload of the page, and what is left of
-- it after the logout.
use harmony_saas_multitenanc.Base.{
  true, false, ◌||◌, Option, none, some, [], ◌≡◌, refl, ◌⊎◌, is_some, if◌then◌else◌, ap, ◌∙◌, sym,
  returned, arith,
}
use harmony_saas_multitenanc.Auth.{User, Tenant, is_system_user}
use harmony_saas_multitenanc.Browser.{Browser, cleared, with_window, parse_stored}
use harmony_saas_multitenanc.Client.{
  Config, Reply, success, failure, fresh, on_request, client, clear_auth, get_access_token,
  set_access_token, set_refresh_token, set_tenant_id, get_tenant_id, get_branch_id,
}
use harmony_saas_multitenanc.Client.Laws.{client-window}
use harmony_saas_multitenanc.AuthApi
use harmony_saas_multitenanc.AuthApi.{
  on_success, LoginRequest, LoginResponse, Server, forget, keep_login, get_stored_user,
  get_stored_tenant,
}
use harmony_saas_multitenanc.AuthStore.{
  after_login, AuthState, Store, initial, check_auth, login, logout, restored, started,
}

-- The page is loaded anew: the store is the initial one, and the browser keeps what it has.
abbrev pub reload : {W : Type 0} → Store W → Store W
reload s = record s { auth = initial; loads = 0 }

abbrev pub SameSession : AuthState → AuthState → Type 0
SameSession a b =
    (a.user ≡ b.user) × (a.tenant ≡ b.tenant) × (a.is_authenticated ≡ b.is_authenticated)

forget-local :
    (b : Browser)
    → b.window ≡ true
    → let b' = forget b in
      with_window b' (record b'.local { features = none })
      ≡ record b { local = cleared; user_cookie = none }
unfolding forget clear_auth
forget-local b h = ground arith

on_request-cleared :
    (b : Browser) (config : Config)
    → on_request (record b { local = cleared; user_cookie = none }) config ≡ config
unfolding on_request get_access_token get_tenant_id get_branch_id
on_request-cleared b config = ground arith

-- Whether the session that a login's response opens comes back whole: a tenant that an earlier login
-- stored is there no longer, or is replaced.
abbrev pub IsCleanStart : LoginResponse → Browser → Type 0
IsCleanStart r b =
    (b.window ≡ true)
    × ((is_some r.tenant ≡ true) ⊎ (b.local.tenant ≡ none))
    × ((is_system_user (some r.user) || is_some r.tenant) ≡ true)

pub stored_session :
    (r : LoginResponse) (b : Browser)
    → (b.window ≡ true)
    → (get_stored_user (keep_login r b) ≡ returned (some r.user))
      × (get_stored_tenant (keep_login r b)
          ≡ (if is_some r.tenant then returned r.tenant else get_stored_tenant b))
unfolding keep_login get_stored_user get_stored_tenant set_access_token set_refresh_token
    set_tenant_id parse_stored
stored_session r b h = (ground arith, ground arith)

-- The store after a login that the server accepted.
pub after_login-success :
    {W : Type 0} (s : Store W) (reply : Reply LoginResponse × Browser × W) (r : LoginResponse)
    → reply.0 ≡ success r
    → let after = (after_login s (on_success keep_login reply)).1 in
      (after.auth.user ≡ some r.user)
      × (after.auth.tenant ≡ r.tenant)
      × (after.auth.is_authenticated ≡ true)
      × (after.browser ≡ keep_login r reply.1)
after_login-success s (success a, b, w) r e =
    let same : a ≡ r = ground arith in rw same (refl, refl, refl, refl)
after_login-success s (failure f, b, w) r e = cc

clean_tenant :
    (r : LoginResponse) (b : Browser)
    → (is_some r.tenant ≡ true) ⊎ (b.local.tenant ≡ none)
    → (if is_some r.tenant then returned r.tenant else get_stored_tenant b) ≡ returned r.tenant
unfolding get_stored_tenant parse_stored
clean_tenant r b h = ground arith

pub check_auth-stored :
    {W : Type 0} (s : Store W) (user : User) (tenant : Option Tenant)
    → get_stored_user s.browser ≡ returned (some user)
    → get_stored_tenant s.browser ≡ returned tenant
    → (is_system_user (some user) || is_some tenant) ≡ true
    → (after : Store W) × (check_auth s ≡ returned after)
      × (after.auth.user ≡ some user)
      × (after.auth.tenant ≡ tenant)
      × (after.auth.is_authenticated ≡ true)
unfolding check_auth
check_auth-stored s user tenant hu ht entitled = (
  restored (some user) tenant s,
  rw (hu, ht),
  rw entitled refl,
  rw entitled refl,
  rw entitled refl,
)

module _ {W : Type 0} (server : Server W) where
  -- the browser in which the login's response arrives
  abbrev pub login_reply : LoginRequest → Store W → Reply LoginResponse × Browser × W
  login_reply request s = client (server.login request) server.refresh fresh s.browser s.world

  -- The browser after a logout.
  pub logout-browser :
      (s : Store W)
      → s.browser.window ≡ true
      → (logout server s).1.browser
        ≡ record (client server.logout server.refresh fresh s.browser s.world).1 {
          local = cleared;
          user_cookie = none;
        }
  unfolding logout AuthApi.logout
  logout-browser s h =
      forget-local (client server.logout server.refresh fresh s.browser s.world).1
        (client-window server.logout server.refresh fresh s.browser s.world ∙ h)

  -- After the logout, whether the server answers or not, the store holds no session, nothing is left
  -- in the storage, and a request carries no token, no tenant and no branch.
  pub logout_leaves_nothing :
      (s : Store W) (config : Config)
      → s.browser.window ≡ true
      → let after = (logout server s).1 in
        (after.auth.user ≡ none)
        × (after.auth.is_authenticated ≡ false)
        × (after.auth.features ≡ [])
        × (after.browser.local ≡ cleared)
        × (on_request after.browser config ≡ config)
  unfolding logout
  logout_leaves_nothing s config h =
      let e = logout-browser s h in
      (
        refl,
        refl,
        refl,
        ap (λ (b : Browser). b.local) e,
        ap (λ (b : Browser). on_request b config) e
            ∙ on_request-cleared (client server.logout server.refresh fresh s.browser s.world).1
                config,
      )

  abbrev pub logged_in : LoginRequest → Store W → Store W
  logged_in request s = (login server request s).1

  -- After a login that the server accepts, a reload of the page restores the session that the login
  -- opened, where the start is clean and the response is a system user's or names a tenant.
  pub login_survives_reload :
      (request : LoginRequest) (s : Store W) (r : LoginResponse)
      → (login_reply request s).0 ≡ success r
      → IsCleanStart r (login_reply request s).1
      → (restored : Store W) × (check_auth (reload (logged_in request s)) ≡ returned restored)
        × SameSession restored.auth (logged_in request s).auth
        × (restored.auth.is_authenticated ≡ true)
  unfolding login AuthApi.login
  login_survives_reload request s r e (open_window, tenant, entitled) =
      let (user_is, tenant_is, authed, kept) =
        after_login-success (started s) (login_reply request s) r e in
      let b = (login_reply request s).1 in
      let (has_user, has_tenant) = stored_session r b open_window in
      let (after, restores, user', tenant', authed') =
        check_auth-stored (reload (logged_in request s)) r.user r.tenant
          (ap get_stored_user kept ∙ has_user)
          (ap get_stored_tenant kept ∙ has_tenant ∙ clean_tenant r b tenant) entitled in
      (
        after,
        restores,
        (user' ∙ sym user_is, tenant' ∙ sym tenant_is, authed' ∙ sym authed),
        authed',
      )
