-- ===== src/AuthStore/Races.antt =====
-- A logout of frontend/src/lib/store/authStore.ts during a refresh of frontend/src/lib/api/client.ts.
use harmony_saas_multitenanc.Base.{String, true, false, ◌≡◌, refl, ◌∙◌, ap, some, ◌==◌}
use harmony_saas_multitenanc.Browser.{Browser}
use harmony_saas_multitenanc.Client.{
  Config, Reply, success, failure, TokenPair, bearer, fresh, on_request, get_access_token,
  set_access_token, set_refresh_token,
}
use harmony_saas_multitenanc.Client.Laws.{client-window}
use harmony_saas_multitenanc.Client.Steps.{refreshing, advance, renew}
use harmony_saas_multitenanc.AuthApi.{Server}
use harmony_saas_multitenanc.AuthStore.{Store, logout}
use harmony_saas_multitenanc.AuthStore.Session.{logout-browser}

-- The storage after new tokens are stored, and the header of a request.
stored_pair :
    (b : Browser) (pair : TokenPair) (config : Config)
    → b.window ≡ true
    → (pair.access_token == "") ≡ false
    → let b' = set_refresh_token pair.refresh_token (set_access_token pair.access_token b) in
      (b'.local.access_token ≡ some pair.access_token)
      × (b'.local.refresh_token ≡ some pair.refresh_token)
      × ((on_request b' config).authorization ≡ some (bearer pair.access_token))
unfolding set_access_token set_refresh_token on_request get_access_token
stored_pair b pair config w n = rw (w, n) (refl, refl, refl)

module _ {W A : Type 0} (server : Server W) (send : Config → W → Reply A × W) where
  logout-window :
      (s : Store W) → s.browser.window ≡ true → (logout server s).1.browser.window ≡ true
  logout-window s w =
      ap (λ (b : Browser). b.window) (logout-browser server s w)
      ∙ client-window server.logout server.refresh fresh s.browser s.world
      ∙ w

  renewed_browser :
      (config : Config) (b : Browser) (r : Reply TokenPair × W) (pair : TokenPair)
      → r.0 ≡ success pair
      → (renew send server.refresh config b r).1
        ≡ set_refresh_token pair.refresh_token (set_access_token pair.access_token b)
  unfolding renew
  renewed_browser config b (success p, w) pair h =
      let same : p ≡ pair = cc h in
      ap (λ (q : TokenPair). set_refresh_token q.refresh_token (set_access_token q.access_token b))
        same
  renewed_browser config b (failure f, w) pair h = absurd (cc h)

  -- A request that waits for its refresh at the logout, and whose refresh the server then accepts with a
  -- token that is not empty, puts both tokens back into the storage, though the store has no session;
  -- every later request carries the new access token.
  pub late_refresh_survives_logout :
      (s : Store W) (config later : Config) (token : String) (pair : TokenPair)
      → s.browser.window ≡ true
      → (pair.access_token == "") ≡ false
      → let after = (logout server s).1 in
        (server.refresh token after.world).0 ≡ success pair
        → let b =
            (advance send server.refresh (refreshing config token, after.browser, after.world)).1 in
          (after.auth.is_authenticated ≡ false)
          × (b.local.access_token ≡ some pair.access_token)
          × (b.local.refresh_token ≡ some pair.refresh_token)
          × ((on_request b later).authorization ≡ some (bearer pair.access_token))
  unfolding advance
  late_refresh_survives_logout s config later token pair w n e =
      let after = (logout server s).1 in
      let stored = renewed_browser config after.browser (server.refresh token after.world) pair e in
      let (access, again, header) = stored_pair after.browser pair later (logout-window s w) n in
      (
        unfold logout in refl,
        ap (λ (b : Browser). b.local.access_token) stored ∙ access,
        ap (λ (b : Browser). b.local.refresh_token) stored ∙ again,
        ap (λ (b : Browser). (on_request b later).authorization) stored ∙ header,
      )
