-- ===== src/Client/Pool/Settling.antt =====
-- Requests that are under way at the same time come to an end.
use harmony_saas_multitenanc.Base.{
  ℕ, zero, suc, ◌+◌, ◌-◌, ◌≤◌, String, Bool, true, false, not, ◌&&◌, ◌≡◌, refl, Option, none, some,
  List, [], ◌∷◌, ap, arith, length, all, nat_eq, if◌then◌else◌,
}
use harmony_saas_multitenanc.Browser.{Browser, truthy}
use harmony_saas_multitenanc.Client.{
  Config, Reply, success, failure, Failure, TokenPair, on_request, is_unauthorized,
  get_refresh_token,
}
use harmony_saas_multitenanc.Client.Steps.{
  Phase, sending, refreshing, done, refresh_or_fail, receive, renew, advance,
}
use harmony_saas_multitenanc.Client.Pool.{Pool, step_at, run_schedule, is_done}

-- How many replies a request waits for at most.
abbrev pub rank : {A : Type 0} → Phase A → ℕ
rank (sending c) = if c.retry then 1 else 3
rank (refreshing c token) = if c.retry then 2 else 4
rank (done r) = 0

abbrev pub rank_at : {A : Type 0} → ℕ → List (Phase A) → ℕ
rank_at i [] = 0
rank_at zero (p ∷ ps) = rank p
rank_at (suc i) (p ∷ ps) = rank_at i ps

-- How often a place is chosen.
abbrev pub count : ℕ → List ℕ → ℕ
count i [] = 0
count i (j ∷ js) = if nat_eq i j then suc (count i js) else count i js

module _ {W A : Type 0} (send : Config → W → Reply A × W)
    (refresh : String → W → Reply TokenPair × W) where
  refresh_or_fail-rank :
      (c : Config) (f : Failure) (go : Bool) (token : Option String) (b : Browser) (w : W)
      → (go ≡ true → c.retry ≡ false)
      → rank (refresh_or_fail send refresh c f go token b w).0 + 1 ≤ rank {A = A} (sending c)
  unfolding refresh_or_fail
  refresh_or_fail-rank c f true (some token) b w h = rw (h refl) (omega arith)
  refresh_or_fail-rank c f true none b w h = ground arith
  refresh_or_fail-rank c f false token b w h = ground arith

  receive-rank :
      (c : Config) (b : Browser) (r : Reply A × W)
      → rank (receive send refresh c b r).0 + 1 ≤ rank {A = A} (sending c)
  unfolding receive
  receive-rank c b (success a, w) = ground arith
  receive-rank c b (failure f, w) =
      refresh_or_fail-rank c f (is_unauthorized f && f.has_config && not c.retry)
        (truthy (get_refresh_token b)) b w (λ h. ground arith)

  renew-rank :
      (c : Config) (token : String) (b : Browser) (r : Reply TokenPair × W)
      → rank (renew send refresh c b r).0 + 1 ≤ rank {A = A} (refreshing c token)
  unfolding renew on_request
  renew-rank c token b (success pair, w) = ground arith
  renew-rank c token b (failure f, w) = ground arith

  -- Each reply brings a request nearer to its end.
  advance-rank :
      (p : Phase A) (b : Browser) (w : W) → rank (advance send refresh (p, b, w)).0 ≤ rank p - 1
  unfolding advance
  advance-rank (sending c) b w = omega (arith, receive-rank c b (send c w))
  advance-rank (refreshing c token) b w = omega (arith, renew-rank c token b (refresh token w))
  advance-rank (done r) b w = omega arith

  step_at-rank :
      (i j : ℕ) (ps : List (Phase A)) (b : Browser) (w : W)
      → rank_at j (step_at send refresh i (ps, b, w)).0
        ≤ (if nat_eq j i then rank_at j ps - 1 else rank_at j ps)
  unfolding step_at
  step_at-rank i j [] b w = ground arith
  step_at-rank zero zero (p ∷ ps) b w = omega (arith, advance-rank p b w)
  step_at-rank zero (suc j) (p ∷ ps) b w = ground arith
  step_at-rank (suc i) zero (p ∷ ps) b w = ground arith
  step_at-rank (suc i) (suc j) (p ∷ ps) b w = ground (arith, step_at-rank i j ps b w)

  length-step_at :
      (i : ℕ) (ps : List (Phase A)) (b : Browser) (w : W)
      → length (step_at send refresh i (ps, b, w)).0 ≡ length ps
  unfolding step_at
  length-step_at i [] b w = refl
  length-step_at zero (p ∷ ps) b w = refl
  length-step_at (suc i) (p ∷ ps) b w = ap suc (length-step_at i ps b w)

  run_schedule-rank :
      (is : List ℕ) (j : ℕ) (pool : Pool send refresh)
      → rank_at j (run_schedule send refresh is pool).0 ≤ rank_at j pool.0 - count j is
  unfolding run_schedule
  run_schedule-rank [] j pool = omega arith
  run_schedule-rank (i ∷ is) j (ps, b, w) =
      ground
        (arith, run_schedule-rank is j (step_at send refresh i (ps, b, w)), step_at-rank i j ps b w)

all_done :
    {A : Type 0} (ps : List (Phase A))
    → ((j : ℕ) → rank_at j ps ≡ 0)
    → all (λ (p : Phase A). is_done p) ps ≡ true
all_done [] h = refl
all_done (sending c ∷ ps) h = let e = h 0 in ground arith
all_done (refreshing c token ∷ ps) h = let e = h 0 in ground arith
all_done (done r ∷ ps) h = all_done ps (λ j. h (suc j))

module _ {W A : Type 0} (send : Config → W → Reply A × W)
    (refresh : String → W → Reply TokenPair × W) where
  -- Whatever the server answers and in whichever order the replies arrive, requests that are under way at
  -- the same time all end: each waits for at most three replies if it is new, or four.
  pub pool_settles :
      (is : List ℕ) (pool : Pool send refresh)
      → ((j : ℕ) → rank_at j pool.0 ≤ count j is)
      → all (λ (p : Phase A). is_done p) (run_schedule send refresh is pool).0 ≡ true
  pool_settles is pool h =
      all_done (run_schedule send refresh is pool).0
        (λ j. let k = h j in omega (arith, run_schedule-rank send refresh is j pool))
