-- ===== src/Client/Pool.antt =====
-- frontend/src/lib/api/client.ts: requests that are under way at the same time, with one client, one browser
-- and one server. They go on one await at a time, in any order.
pub mod Settling
pub mod Session
use mathlib.Core.Path.{subst}
use harmony_saas_multitenanc.Base.{
  ℕ, zero, suc, ◌+◌, ◌-◌, ◌≤◌, ◌<◌, String, Bool, true, false, not, ◌&&◌, ◌≡◌, refl, Option, none,
  some, List, [], ◌∷◌, ap, arith, length, all, nat_eq, if◌then◌else◌, ◌==◌, is_some, sym,
}
use harmony_saas_multitenanc.Browser.{Browser, truthy}
use harmony_saas_multitenanc.Client.{
  Config, Reply, success, failure, Failure, TokenPair, on_request, is_unauthorized,
  get_refresh_token, set_access_token, set_refresh_token,
}
use harmony_saas_multitenanc.Client.Steps.{
  Phase, sending, refreshing, done, refresh_or_fail, receive, renew, advance,
}

module _ {W A : Type 0} (send : Config → W → Reply A × W)
    (refresh : String → W → Reply TokenPair × W) where
  abbrev pub Pool : Type 0
  Pool = List (Phase A) × Browser × W

  -- The reply to the request at a place arrives.
  unfoldable pub step_at : ℕ → Pool → Pool
  unfolding advance
  step_at i ([], b, w) = ([], b, w)
  step_at zero (p ∷ ps, b, w) =
      let (p', b', w') = advance send refresh (p, b, w) in (p' ∷ ps, b', w')
  step_at (suc i) (p ∷ ps, b, w) = let (ps', b', w') = step_at i (ps, b, w) in (p ∷ ps', b', w')

  unfoldable pub run_schedule : List ℕ → Pool → Pool
  unfolding step_at
  run_schedule [] pool = pool
  run_schedule (i ∷ is) pool = run_schedule is (step_at i pool)

abbrev pub is_done : {A : Type 0} → Phase A → Bool
is_done (sending c) = false
is_done (refreshing c token) = false
is_done (done r) = true
