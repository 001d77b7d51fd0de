-- ===== src/Client/Trace.antt =====
-- The calls that one request through frontend/src/lib/api/client.ts makes, and the storage it leaves.
use harmony_saas_multitenanc.Base.{
  String, true, not, ◌&&◌, ◌≡◌, refl, ap, none, some, List, [], ◌∷◌, ◌++◌, arith, Option-cases,
  Bool-cases, inl, inr, ◌⊎◌,
}
use harmony_saas_multitenanc.Browser.{Browser, truthy}
use harmony_saas_multitenanc.Client.{
  Config, Failure, Reply, success, failure, TokenPair, on_request, is_unauthorized,
  get_refresh_token, get_access_token, set_access_token, set_refresh_token, clear_auth,
  redirect_to_login, bearer, after_refresh, on_error, on_reply, client_step, client, lost,
}

-- A call that leaves the program: a request, or one of the refresh endpoint.
pub data Call : Type 0 where
  sent : Config → Call
  renewal : String → Call

module _ {W : Type 0} where
  -- A server that writes down the calls.
  abbrev pub log_send :
      {A : Type 0} → (Config → W → Reply A × W) → Config → W × List Call → Reply A × (W × List Call)
  log_send send config (w, calls) =
      let (reply, w') = send config w in (reply, (w', calls ++ sent config ∷ []))

  abbrev pub log_refresh :
      (String → W → Reply TokenPair × W)
      → String
      → W × List Call
      → Reply TokenPair × (W × List Call)
  log_refresh refresh token (w, calls) =
      let (reply, w') = refresh token w in (reply, (w', calls ++ renewal token ∷ []))

-- The tokens of a successful refresh, stored.
abbrev pub renew : TokenPair → Browser → Browser
renew pair b = set_refresh_token pair.refresh_token (set_access_token pair.access_token b)

abbrev pub again_with : Config → TokenPair → Config
again_with config pair = record config {
  retry = true;
  authorization = some (bearer pair.access_token);
}

-- The three ways in which a request ends: one call, and the storage as it was; a refused refresh, and
-- the session cleared; a refresh, the new tokens stored, and a second call with the new token.
pub data Ending (config : Config) (b after : Browser) (before calls : List Call) : Type 0 where
  once :
      after ≡ b
      → calls ≡ before ++ sent (on_request b config) ∷ []
      → Ending config b after before calls
  signed_out :
      (token : String)
      → truthy (get_refresh_token b) ≡ some token
      → after ≡ redirect_to_login (clear_auth b)
      → calls ≡ (before ++ sent (on_request b config) ∷ []) ++ renewal token ∷ []
      → Ending config b after before calls
  retried :
      (token : String) (pair : TokenPair) (second : Config)
      → truthy (get_refresh_token b) ≡ some token
      → after ≡ renew pair b
      → second.authorization ≡ some (bearer pair.access_token)
      → second.retry ≡ true
      → calls
        ≡ ((before ++ sent (on_request b config) ∷ []) ++ renewal token ∷ []) ++ sent second ∷ []
      → Ending config b after before calls

stored_token :
    (b : Browser) (pair : TokenPair)
    → (get_access_token (renew pair b) ≡ none)
      ⊎ (get_access_token (renew pair b) ≡ some pair.access_token)
unfolding get_access_token set_access_token set_refresh_token
stored_token b pair = ground arith

-- A request that is sent again carries the token that was just stored.
authorization-renewed :
    (b : Browser) (config : Config) (pair : TokenPair)
    → (on_request (renew pair b) (again_with config pair)).authorization
      ≡ some (bearer pair.access_token)
unfolding on_request
authorization-renewed b config pair = elim (stored_token b pair) [
  | inl e ↦ rw e
  | inr e ↦ rw e (ground arith)
]

module _ {W A : Type 0} (send : Config → W → Reply A × W)
    (refresh : String → W → Reply TokenPair × W) where
  abbrev client_logged : Config → Browser → W × List Call → Reply A × Browser × (W × List Call)
  client_logged = client (log_send send) (log_refresh refresh)

  abbrev last_pass : Config → Browser → W × List Call → Reply A × Browser × (W × List Call)
  last_pass =
      client_step (log_send send) (log_refresh refresh) (lost (log_send send) (log_refresh refresh))

  on_reply-marked :
      (config : Config) (b : Browser) (r : Reply A × (W × List Call))
      → config.retry ≡ true
      → let end =
          on_reply
            (log_send send)
            (log_refresh refresh)
            (lost (log_send send) (log_refresh refresh))
            config
            b
            r in
        (end.1 ≡ b) × (end.2 ≡ r.1)
  unfolding on_reply on_error
  on_reply-marked config b (success a, w) marked = (refl, refl)
  on_reply-marked config b (failure f, w) marked = ground arith

  -- The second pass makes one call and leaves the storage alone.
  last_pass-calls :
      (config : Config) (b : Browser) (w : W) (calls : List Call)
      → config.retry ≡ true
      → ((last_pass config b (w, calls)).1 ≡ b)
        × ((last_pass config b (w, calls)).2.1 ≡ calls ++ sent (on_request b config) ∷ [])
  unfolding client_step
  last_pass-calls config b w calls marked =
      let (same, log) =
        on_reply-marked (on_request b config) b (log_send send (on_request b config) (w, calls))
          (unfold on_request in marked) in
      (same, ap (λ (l : W × List Call). l.1) log)

  refresh-Ending :
      (config : Config) (b : Browser) (token : String) (before : List Call)
      (r : Reply TokenPair × W)
      → truthy (get_refresh_token b) ≡ some token
      → let calls = before ++ sent (on_request b config) ∷ [] in
        let end =
          after_refresh
            (log_send send)
            (log_refresh refresh)
            last_pass
            (record (on_request b config) { retry = true })
            b
            (r.0, (r.1, calls ++ renewal token ∷ [])) in
        Ending config b end.1 before end.2.1
  unfolding after_refresh
  refresh-Ending config b token before (failure f, w) found = signed_out token found refl refl
  refresh-Ending config b token before (success pair, w) found =
      let again = again_with (on_request b config) pair in
      let (same, log) =
        last_pass-calls again (renew pair b) w
          ((before ++ sent (on_request b config) ∷ []) ++ renewal token ∷ []) refl in
      retried token pair (on_request (renew pair b) again) found same
        (authorization-renewed b (on_request b config) pair) (unfold on_request in refl) log

  on_error-Ending :
      (config : Config) (f : Failure) (b : Browser) (w : W) (before : List Call)
      → let calls = before ++ sent (on_request b config) ∷ [] in
        let end =
          on_error
            (log_send send)
            (log_refresh refresh)
            last_pass
            (on_request b config)
            f
            b
            (w, calls) in
        Ending config b end.1 before end.2.1
  unfolding on_error
  on_error-Ending config f b w before =
      elim (Bool-cases (is_unauthorized f && f.has_config && not (on_request b config).retry)) [
        | inr other ↦ rw other (once refl refl)
        | inl recover ↦ rw recover (elim (Option-cases (truthy (get_refresh_token b))) [
          | inl missing ↦ rw missing (once refl refl)
          | inr (token, found) ↦
              rw found (refresh-Ending config b token before (refresh token w) found)
        ])
      ]

  on_reply-Ending :
      (config : Config) (b : Browser) (before : List Call) (r : Reply A × W)
      → let calls = before ++ sent (on_request b config) ∷ [] in
        let end =
          on_reply
            (log_send send)
            (log_refresh refresh)
            last_pass
            (on_request b config)
            b
            (r.0, (r.1, calls)) in
        Ending config b end.1 before end.2.1
  unfolding on_reply
  on_reply-Ending config b before (success a, w) = once refl refl
  on_reply-Ending config b before (failure f, w) = on_error-Ending config f b w before

  -- Whatever the server answers, a request makes one call; or a call and a refused refresh, after
  -- which the session is cleared and the address is the login page; or a call, a refresh, whose tokens
  -- are stored, and one more call, which is marked and carries the new access token.
  pub client-Ending :
      (config : Config) (b : Browser) (w : W) (before : List Call)
      → let end = client (log_send send) (log_refresh refresh) config b (w, before) in
        Ending config b end.1 before end.2.1
  unfolding client
  client-Ending config b w before =
      unfold client_step in on_reply-Ending config b before (send (on_request b config) w)
