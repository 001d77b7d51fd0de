-- ===== src/Client/Laws.antt =====
-- The recursion of the interceptors of frontend/src/lib/api/client.ts, and what a request leaves in the
-- storage on each of its branches.
use harmony_saas_multitenanc.Base.{String, true, ◌≡◌, refl, ◌∙◌, arith, Option-cases, inl, inr}
use harmony_saas_multitenanc.Browser.{Browser, truthy}
use harmony_saas_multitenanc.Client.{
  Config, Failure, Reply, success, failure, TokenPair, on_request, get_refresh_token,
  set_access_token, set_refresh_token, clear_auth, redirect_to_login, after_refresh, on_error,
  on_reply, client_step, client, lost,
}

module _ {W A : Type 0} (send : Config → W → Reply A × W)
    (refresh : String → W → Reply TokenPair × W) where
  -- The requests that a pass sends again are marked, so two passes that agree on those agree.
  after_refresh-cong :
      (k k' : Config → Browser → W → Reply A × Browser × W) (config : Config) (b : Browser)
      (r : Reply TokenPair × W)
      → config.retry ≡ true
      → ((c : Config) (b : Browser) (w : W) → c.retry ≡ true → k c b w ≡ k' c b w)
      → after_refresh send refresh k config b r ≡ after_refresh send refresh k' config b r
  unfolding after_refresh
  after_refresh-cong k k' config b (success pair, w) marked same = same _ _ w marked
  after_refresh-cong k k' config b (failure f, w) marked same = refl

  on_error-cong :
      (k k' : Config → Browser → W → Reply A × Browser × W) (config : Config) (f : Failure)
      (b : Browser) (w : W)
      → ((c : Config) (b : Browser) (w : W) → c.retry ≡ true → k c b w ≡ k' c b w)
      → on_error send refresh k config f b w ≡ on_error send refresh k' config f b w
  unfolding on_error
  on_error-cong k k' config f b w same = elim (Option-cases (truthy (get_refresh_token b))) [
    | inl missing ↦ ground arith
    | inr (token, found) ↦ ground (
      arith,
      after_refresh-cong k k' (record config { retry = true }) b (refresh token w) refl same,
    )
  ]

  on_error-marked :
      (k k' : Config → Browser → W → Reply A × Browser × W) (config : Config) (f : Failure)
      (b : Browser) (w : W)
      → config.retry ≡ true
      → on_error send refresh k config f b w ≡ on_error send refresh k' config f b w
  unfolding on_error
  on_error-marked k k' config f b w marked = ground arith

  on_reply-cong :
      (k k' : Config → Browser → W → Reply A × Browser × W) (config : Config) (b : Browser)
      (r : Reply A × W)
      → ((c : Config) (b : Browser) (w : W) → c.retry ≡ true → k c b w ≡ k' c b w)
      → on_reply send refresh k config b r ≡ on_reply send refresh k' config b r
  unfolding on_reply
  on_reply-cong k k' config b (success a, w) same = refl
  on_reply-cong k k' config b (failure f, w) same = on_error-cong k k' config f b w same

  on_reply-marked :
      (k k' : Config → Browser → W → Reply A × Browser × W) (config : Config) (b : Browser)
      (r : Reply A × W)
      → config.retry ≡ true
      → on_reply send refresh k config b r ≡ on_reply send refresh k' config b r
  unfolding on_reply
  on_reply-marked k k' config b (success a, w) marked = refl
  on_reply-marked k k' config b (failure f, w) marked = on_error-marked k k' config f b w marked

  -- What a pass does with a marked request does not depend on how requests are sent again.
  pub client_step-marked :
      (k k' : Config → Browser → W → Reply A × Browser × W) (config : Config) (b : Browser) (w : W)
      → config.retry ≡ true
      → client_step send refresh k config b w ≡ client_step send refresh k' config b w
  unfolding client_step on_request
  client_step-marked k k' config b w marked =
      on_reply-marked k k' (on_request b config) b (send (on_request b config) w) marked

  -- A request satisfies the recursion of the interceptors, in which the request that is sent again
  -- goes through both of them like any other: so that recursion ends, whatever the server answers.
  pub client_recursion :
      (config : Config) (b : Browser) (w : W)
      → client send refresh config b w ≡ client_step send refresh (client send refresh) config b w
  unfolding client
  client_recursion config b w =
      unfold client_step in
      on_reply-cong (client_step send refresh (lost send refresh)) (client send refresh)
        (on_request b config) b (send (on_request b config) w)
        (λ c b' w' marked.
          client_step-marked (lost send refresh) (client_step send refresh (lost send refresh)) c b'
            w' marked)

  after_refresh-window :
      (k : Config → Browser → W → Reply A × Browser × W) (config : Config) (b : Browser)
      (r : Reply TokenPair × W)
      → ((c : Config) (b : Browser) (w : W) → (k c b w).1.window ≡ b.window)
      → (after_refresh send refresh k config b r).1.window ≡ b.window
  unfolding after_refresh set_access_token set_refresh_token clear_auth redirect_to_login
  after_refresh-window k config b (success pair, w) keep = keep _ _ w ∙ ground arith
  after_refresh-window k config b (failure f, w) keep = ground arith

  on_reply-window :
      (k : Config → Browser → W → Reply A × Browser × W) (config : Config) (b : Browser)
      (r : Reply A × W)
      → ((c : Config) (b : Browser) (w : W) → (k c b w).1.window ≡ b.window)
      → (on_reply send refresh k config b r).1.window ≡ b.window
  unfolding on_reply on_error
  on_reply-window k config b (success a, w) keep = refl
  on_reply-window k config b (failure f, w) keep =
      elim (Option-cases (truthy (get_refresh_token b))) [
        | inl missing ↦ ground arith
        | inr (token, found) ↦ ground (
          arith,
          after_refresh-window k (record config { retry = true }) b (refresh token w) keep,
        )
      ]

  -- A request neither opens nor closes the window.
  pub client-window :
      (config : Config) (b : Browser) (w : W) → (client send refresh config b w).1.window ≡ b.window
  unfolding client client_step
  client-window config b w =
      on_reply-window (client_step send refresh (lost send refresh)) (on_request b config) b
        (send (on_request b config) w)
        (λ c b' w'.
          on_reply-window (lost send refresh) (on_request b' c) b' (send (on_request b' c) w')
            (λ _ _ _. refl))
