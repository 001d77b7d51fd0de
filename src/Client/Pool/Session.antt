-- ===== src/Client/Pool/Session.antt =====
-- The session under requests that are under way at the same time.
use mathlib.Core.Path.{subst}
use harmony_saas_multitenanc.Base.{
  ℕ, zero, suc, String, Bool, true, false, not, ◌&&◌, ◌≡◌, refl, Option, none, some, List, [], ◌∷◌,
  ap, arith, get_elem?, nat_eq, Bool-cases, inl, inr, ◌==◌, is_some, sym, ◌∙◌,
}
use harmony_saas_multitenanc.Browser.{Browser, truthy}
use harmony_saas_multitenanc.Client.{
  Config, Reply, success, failure, Failure, TokenPair, is_unauthorized, get_refresh_token,
  get_access_token, clear_auth, redirect_to_login, set_access_token, set_refresh_token,
}
use harmony_saas_multitenanc.Client.Steps.{
  Phase, sending, refreshing, done, refresh_or_fail, receive, renew, advance,
}
use harmony_saas_multitenanc.Client.Pool.{Pool, step_at, run_schedule}

-- The server accepts a refresh, with two tokens that are not empty.
abbrev pub Accepted : {W : Type 0} → Reply TokenPair × W → Type 0
Accepted (success pair, w) =
    ((pair.access_token == "") ≡ false) × ((pair.refresh_token == "") ≡ false)
Accepted (failure f, w) = ⊥

-- A session is stored, and the browser is at an address.
pub record IsSignedIn (address : String) (b : Browser) : Type 0 where
  pub in_window : b.window ≡ true
  pub access : is_some (truthy b.local.access_token) ≡ true
  pub again : is_some (truthy b.local.refresh_token) ≡ true
  pub at_address : b.href ≡ address

module _ {W A : Type 0} (send : Config → W → Reply A × W)
    (refresh : String → W → Reply TokenPair × W) where
  refresh_or_fail-browser :
      (c : Config) (f : Failure) (go : Bool) (token : Option String) (b : Browser) (w : W)
      → (refresh_or_fail send refresh c f go token b w).1 ≡ b
  unfolding refresh_or_fail
  refresh_or_fail-browser c f true (some token) b w = refl
  refresh_or_fail-browser c f true none b w = refl
  refresh_or_fail-browser c f false token b w = refl

  receive-browser :
      (c : Config) (b : Browser) (r : Reply A × W) → (receive send refresh c b r).1 ≡ b
  unfolding receive
  receive-browser c b (success a, w) = refl
  receive-browser c b (failure f, w) =
      refresh_or_fail-browser c f (is_unauthorized f && f.has_config && not c.retry)
        (truthy (get_refresh_token b)) b w

  renew-IsSignedIn :
      (address : String) (c : Config) (b : Browser) (r : Reply TokenPair × W)
      → Accepted r
      → IsSignedIn address b
      → IsSignedIn address (renew send refresh c b r).1
  unfolding renew set_access_token set_refresh_token
  renew-IsSignedIn address c b (success pair, w) n s = ground arith
  renew-IsSignedIn address c b (failure f, w) n s = absurd n

  module _ (accepts : (token : String) (w : W) → Accepted (refresh token w))
      (address : String) where
    advance-IsSignedIn :
        (p : Phase A) (b : Browser) (w : W)
        → IsSignedIn address b
        → IsSignedIn address (advance send refresh (p, b, w)).1
    unfolding advance
    advance-IsSignedIn (sending c) b w s =
        subst (IsSignedIn address) (sym (receive-browser c b (send c w))) s
    advance-IsSignedIn (refreshing c token) b w s =
        renew-IsSignedIn address c b (refresh token w) (accepts token w) s
    advance-IsSignedIn (done r) b w s = s

    step_at-IsSignedIn :
        (i : ℕ) (ps : List (Phase A)) (b : Browser) (w : W)
        → IsSignedIn address b
        → IsSignedIn address (step_at send refresh i (ps, b, w)).1
    unfolding step_at
    step_at-IsSignedIn i [] b w s = s
    step_at-IsSignedIn zero (p ∷ ps) b w s = advance-IsSignedIn p b w s
    step_at-IsSignedIn (suc i) (p ∷ ps) b w s = step_at-IsSignedIn i ps b w s

    -- As long as the server accepts every refresh, no interleaving of requests ends the session, with
    -- refreshes at the same time or one after the other: the two tokens stay stored and the address stays.
    pub run_schedule-IsSignedIn :
        (is : List ℕ) (pool : Pool send refresh)
        → IsSignedIn address pool.1
        → IsSignedIn address (run_schedule send refresh is pool).1
    unfolding run_schedule
    run_schedule-IsSignedIn [] pool s = s
    run_schedule-IsSignedIn (i ∷ is) (ps, b, w) s =
        run_schedule-IsSignedIn is (step_at send refresh i (ps, b, w))
          (step_at-IsSignedIn i ps b w s)

  -- The request at a place goes on, and the others stay as they are.
  step_at-chosen :
      (i : ℕ) (ps : List (Phase A)) (b : Browser) (w : W) (p : Phase A)
      → get_elem? ps i ≡ some p
      → let next = advance send refresh (p, b, w) in
        let after = step_at send refresh i (ps, b, w) in
        (get_elem? after.0 i ≡ some next.0) × (after.1 ≡ next.1) × (after.2 ≡ next.2)
  unfolding step_at
  step_at-chosen i [] b w p h = absurd (cc h)
  step_at-chosen zero (q ∷ ps) b w p h =
      let e : q ≡ p = cc h in
      (
        ap (λ (x : Phase A). some (advance send refresh (x, b, w)).0) e,
        ap (λ (x : Phase A). (advance send refresh (x, b, w)).1) e,
        ap (λ (x : Phase A). (advance send refresh (x, b, w)).2) e,
      )
  step_at-chosen (suc i) (q ∷ ps) b w p h = step_at-chosen i ps b w p h

  step_at-other :
      (i j : ℕ) (ps : List (Phase A)) (b : Browser) (w : W)
      → nat_eq i j ≡ false
      → get_elem? (step_at send refresh i (ps, b, w)).0 j ≡ get_elem? ps j
  unfolding step_at
  step_at-other i j [] b w h = refl
  step_at-other zero zero (q ∷ ps) b w h = ground arith
  step_at-other zero (suc j) (q ∷ ps) b w h = refl
  step_at-other (suc i) zero (q ∷ ps) b w h = refl
  step_at-other (suc i) (suc j) (q ∷ ps) b w h = step_at-other i j ps b w (ground arith)

  different_places :
      (i j : ℕ) (ps : List (Phase A)) (c c' : Config) (token : String)
      → get_elem? ps i ≡ some (refreshing c token)
      → get_elem? ps j ≡ some (sending c')
      → nat_eq i j ≡ false
  different_places i j ps c c' token h k = elim (Bool-cases (nat_eq i j)) [
    | inl e ↦ let same : i ≡ j = ground arith in absurd (cc (h, k, same))
    | inr e ↦ e
  ]

  refused_browser :
      (c : Config) (b : Browser) (r : Reply TokenPair × W) (f : Failure)
      → r.0 ≡ failure f
      → b.window ≡ true
      → let next = renew send refresh c b r in
        (next.2 ≡ r.1)
        × (get_refresh_token next.1 ≡ none)
        × (get_access_token next.1 ≡ none)
        × (next.1.href ≡ "/login")
  unfolding renew clear_auth redirect_to_login get_refresh_token get_access_token
  refused_browser c b (success pair, w) f h k = absurd (cc h)
  refused_browser c b (failure g, w) f h k = rw k (refl, refl, refl, refl)

  no_token-fails :
      (c : Config) (f : Failure) (go : Bool) (token : Option String) (b : Browser) (w : W)
      → truthy token ≡ none
      → (refresh_or_fail send refresh c f go (truthy token) b w).0 ≡ done (failure f)
  unfolding refresh_or_fail
  no_token-fails c f true token b w h = rw h refl
  no_token-fails c f false token b w h = refl

  no_token-receive :
      (c : Config) (b : Browser) (r : Reply A × W) (f : Failure)
      → get_refresh_token b ≡ none
      → r.0 ≡ failure f
      → (receive send refresh c b r).0 ≡ done (failure f)
  unfolding receive
  no_token-receive c b (success a, w) f h k = absurd (cc k)
  no_token-receive c b (failure g, w) f h k =
      no_token-fails c g (is_unauthorized g && g.has_config && not c.retry) (get_refresh_token b) b
        w (ap truthy h)
      ∙ ap (λ (r : Reply A). done r) k

  -- A refresh that the server refuses ends the session for all requests: in a browser with a window, no
  -- token is stored any more and the address is the login page; and a request that waits for its reply,
  -- and whose reply is a failure, ends with that failure, without a refresh of its own.
  pub refused_refresh_ends_session :
      (i j : ℕ) (ps : List (Phase A)) (b : Browser) (w : W) (c c' : Config) (token : String)
      (f f' : Failure)
      → b.window ≡ true
      → get_elem? ps i ≡ some (refreshing c token)
      → get_elem? ps j ≡ some (sending c')
      → (refresh token w).0 ≡ failure f
      → (send c' (refresh token w).1).0 ≡ failure f'
      → let after = step_at send refresh i (ps, b, w) in
        (get_refresh_token after.1 ≡ none)
        × (get_access_token after.1 ≡ none)
        × (after.1.href ≡ "/login")
        × (get_elem? (step_at send refresh j after).0 j ≡ some (done (failure f')))
  unfolding advance
  refused_refresh_ends_session i j ps b w c c' token f f' k at_i at_j e e' =
      let after = step_at send refresh i (ps, b, w) in
      let (_, browser, world) = step_at-chosen i ps b w (refreshing c token) at_i in
      let (same, again, access, login) = refused_browser c b (refresh token w) f e k in
      let waits : get_elem? after.0 j ≡ some (sending c') =
        step_at-other i j ps b w (different_places i j ps c c' token at_i at_j) ∙ at_j in
      let (ends, _, _) = step_at-chosen j after.0 after.1 after.2 (sending c') waits in
      let gone : get_refresh_token after.1 ≡ none = ap get_refresh_token browser ∙ again in
      let failed : (send c' after.2).0 ≡ failure f' = ap (λ v. (send c' v).0) (world ∙ same) ∙ e' in
      (
        gone,
        ap get_access_token browser ∙ access,
        ap (λ (x : Browser). x.href) browser ∙ login,
        ends ∙ ap some (no_token-receive c' after.1 (send c' after.2) f' gone failed),
      )
