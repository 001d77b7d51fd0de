-- ===== src/Client/Steps.antt =====
-- frontend/src/lib/api/client.ts: a request as the steps between its awaits, between which other code runs.
use harmony_saas_multitenanc.Base.{String, Bool, true, false, not, ◌&&◌, Option, none, some}
use harmony_saas_multitenanc.Browser.{Browser, truthy}
use harmony_saas_multitenanc.Client.{
  Config, Reply, success, failure, Failure, TokenPair, bearer, on_request, is_unauthorized,
  get_refresh_token, set_access_token, set_refresh_token, clear_auth, redirect_to_login,
}

-- What a request waits for: the reply to it, or the reply to the refresh with a token; or its end.
pub data Phase (A : Type 0) : Type 0 where
  sending : Config → Phase A
  refreshing : Config → String → Phase A
  done : Reply A → Phase A

module _ {W A : Type 0} (send : Config → W → Reply A × W)
    (refresh : String → W → Reply TokenPair × W) where
  abbrev pub Point : Type 0
  Point = Phase A × Browser × W

  unfoldable pub refresh_or_fail : Config → Failure → Bool → Option String → Browser → W → Point
  refresh_or_fail c f true (some token) b w = (refreshing (record c { retry = true }) token, b, w)
  refresh_or_fail c f true none b w = (done (failure f), b, w)
  refresh_or_fail c f false token b w = (done (failure f), b, w)

  unfoldable pub receive : Config → Browser → Reply A × W → Point
  receive c b (success a, w) = (done (success a), b, w)
  receive c b (failure f, w) =
      refresh_or_fail c f (is_unauthorized f && f.has_config && not c.retry)
        (truthy (get_refresh_token b)) b w

  unfoldable pub renew : Config → Browser → Reply TokenPair × W → Point
  renew c b (success pair, w) =
      let b' = set_refresh_token pair.refresh_token (set_access_token pair.access_token b) in
      (
        sending (on_request b' (record c { authorization = some (bearer pair.access_token) })),
        b',
        w,
      )
  renew c b (failure f, w) = (done (failure f), redirect_to_login (clear_auth b), w)

  -- The next reply arrives, in the browser as it is then.
  unfoldable pub advance : Point → Point
  advance (sending c, b, w) = receive c b (send c w)
  advance (refreshing c token, b, w) = renew c b (refresh token w)
  advance (done r, b, w) = (done r, b, w)
