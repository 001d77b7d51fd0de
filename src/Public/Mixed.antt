-- ===== src/Public/Mixed.antt =====
-- An invitation that is accepted in a browser with the session of someone else.
use harmony_saas_multitenanc.Base.{
  String, true, false, Option, none, some, ◌≡◌, ◌∙◌, ap, returned, arith, ◌==◌,
}
use harmony_saas_multitenanc.Auth.{User, Tenant}
use harmony_saas_multitenanc.Browser.{Browser, json, parse_stored}
use harmony_saas_multitenanc.Client.{
  Config, Reply, success, failure, fresh, TokenPair, on_request, set_access_token,
  set_refresh_token, get_tenant_id, get_access_token, bearer, client,
}
use harmony_saas_multitenanc.AuthApi.{get_stored_user, get_stored_tenant}
use harmony_saas_multitenanc.AuthStore.{Store, check_auth}
use harmony_saas_multitenanc.AuthStore.Session.{reload, check_auth-stored}
use harmony_saas_multitenanc.Public.{
  PublicPage, InviteForm, Accounts, AcceptResponse, password_error, unless_error, keep_tokens,
  after_invite, without_error, invitation, submit_invite,
}

-- What the storage has of the session of someone else.
pub record HasSession (u : User) (t : Tenant) (b : Browser) : Type 0 where
  pub in_window : b.window ≡ true
  pub user : b.local.user ≡ some (json u)
  pub tenant : b.local.tenant ≡ some (json t)
  pub tenant_id : b.local.tenant_id ≡ some t.id

-- New tokens leave the rest of it.
kept_session :
    (u : User) (t : Tenant) (pair : TokenPair) (config : Config) (b : Browser)
    → HasSession u t b
    → (t.id == "") ≡ false
    → (pair.access_token == "") ≡ false
    → let b' = keep_tokens (some pair) b in
      (get_stored_user b' ≡ returned (some u))
      × (get_stored_tenant b' ≡ returned (some t))
      × ((on_request b' config).authorization ≡ some (bearer pair.access_token))
      × ((on_request b' config).x_tenant_id ≡ some t.id)
unfolding keep_tokens get_stored_user get_stored_tenant parse_stored set_access_token
    set_refresh_token on_request get_tenant_id get_access_token
kept_session u t pair config b h n k =
    let w = h.in_window in
    let hu = h.user in
    let ht = h.tenant in
    let hid = h.tenant_id in (ground arith, ground arith, ground arith, ground arith)

accepted_browser :
    {W : Type 0} (page : PublicPage) (run : Reply AcceptResponse × Browser × W) (r : AcceptResponse)
    (pair : TokenPair)
    → run.0 ≡ success r
    → r.tokens ≡ some pair
    → (after_invite page run).1 ≡ keep_tokens (some pair) run.1
unfolding after_invite
accepted_browser page (success q, b, w) r pair h k =
    let same : q ≡ r = cc h in
    ap (λ (x : AcceptResponse). keep_tokens x.tokens b) same ∙ ap (λ x. keep_tokens x b) k
accepted_browser page (failure f, b, w) r pair h k = absurd (cc h)

module _ {W : Type 0} (accounts : Accounts W) where
  -- the call, and the browser in which its response arrives
  abbrev pub invite_reply :
      Option String → InviteForm → Browser → W → Reply AcceptResponse × Browser × W
  invite_reply token form b w =
      client (accounts.accept_invite (invitation token form)) accounts.refresh fresh b w

  submitted :
      (token : Option String) (form : InviteForm) (page : PublicPage) (b : Browser) (w : W)
      → password_error "Invalid invitation token" form.password form.confirm_password token ≡ none
      → (submit_invite accounts token form page b w).1
        ≡ (after_invite (without_error page) (invite_reply token form b w)).1
  unfolding submit_invite unless_error
  submitted token form page b w ok =
      ap
        (λ e.
          (unless_error e page b w
            (after_invite (without_error page) (invite_reply token form b w))).1)
        ok

  -- Where a session of someone else is stored, with a tenant whose id is not empty, an accepted invitation
  -- that the server answers with tokens mixes the two: every request carries the access token of the
  -- invited user and the tenant id of the other session, and checkAuth on the reloaded page signs in the
  -- other user, with that tenant.
  pub invitation_mixes_sessions :
      (token : Option String) (form : InviteForm) (page : PublicPage) (b : Browser) (w : W)
      (r : AcceptResponse) (pair : TokenPair) (u : User) (t : Tenant) (config : Config)
      (s : Store W)
      → password_error "Invalid invitation token" form.password form.confirm_password token ≡ none
      → (invite_reply token form b w).0 ≡ success r
      → r.tokens ≡ some pair
      → HasSession u t (invite_reply token form b w).1
      → (t.id == "") ≡ false
      → (pair.access_token == "") ≡ false
      → s.browser ≡ (submit_invite accounts token form page b w).1
      → ((on_request s.browser config).authorization ≡ some (bearer pair.access_token))
        × ((on_request s.browser config).x_tenant_id ≡ some t.id)
        × ((after : Store W) × (check_auth (reload s) ≡ returned after)
            × (after.auth.user ≡ some u)
            × (after.auth.tenant ≡ some t)
            × (after.auth.is_authenticated ≡ true))
  invitation_mixes_sessions token form page b w r pair u t config s ok e has other n k there =
      let run = invite_reply token form b w in
      let (is_user, is_tenant, header, id) = kept_session u t pair config run.1 other n k in
      let stored : s.browser ≡ keep_tokens (some pair) run.1 =
        there
        ∙ submitted token form page b w ok
        ∙ accepted_browser (without_error page) run r pair e has in
      (
        ap (λ (x : Browser). (on_request x config).authorization) stored ∙ header,
        ap (λ (x : Browser). (on_request x config).x_tenant_id) stored ∙ id,
        check_auth-stored (reload s) u (some t) (ap get_stored_user stored ∙ is_user)
            (ap get_stored_tenant stored ∙ is_tenant) (ground arith),
      )
