-- ===== src/Tests/Overlaps.antt =====
-- Two requests that are under way at the same time.
use harmony_saas_multitenanc.Base.{
  ℕ, zero, suc, String, ◌≡◌, refl, ◌≤◌, true, none, some, [], List, ◌∷◌, arith, all, get_elem?,
}
use harmony_saas_multitenanc.Client.{
  Reply, TokenPair, success, failure, fresh, on_request, get_access_token, get_refresh_token,
  get_tenant_id, get_branch_id, set_access_token, set_refresh_token, is_unauthorized,
}
use harmony_saas_multitenanc.Client.Steps.{
  Phase, sending, refreshing, done, advance, receive, renew, refresh_or_fail,
}
use harmony_saas_multitenanc.Client.Pool.{Pool, step_at, run_schedule, is_done}
use harmony_saas_multitenanc.Client.Pool.Settling.{rank_at, count, pool_settles}
use harmony_saas_multitenanc.Client.Pool.Session.{
  IsSignedIn, run_schedule-IsSignedIn, refused_refresh_ends_session,
}
use harmony_saas_multitenanc.Auth.{User}
use harmony_saas_multitenanc.Tests.Sample.{server, used_browser, owner_user, offline, unauthorized}

abbrev two_requests : Pool server.me server.refresh
two_requests = (
  sending (record fresh { authorization = some "Bearer a1" })
      ∷ sending (record fresh { authorization = some "Bearer a1" })
      ∷ [],
  used_browser,
  0,
)

abbrev in_turn : List ℕ
in_turn = 0 ∷ 1 ∷ 0 ∷ 1 ∷ 0 ∷ 1 ∷ []

-- Both are refused, both refresh with the same token, and both are answered.
both_answered :
    (run_schedule server.me server.refresh in_turn two_requests).0
    ≡ done (success owner_user) ∷ done (success owner_user) ∷ []
unfolding run_schedule step_at advance receive renew refresh_or_fail on_request is_unauthorized
    get_refresh_token get_access_token get_tenant_id get_branch_id set_access_token
    set_refresh_token
both_answered = refl

often_enough : (j : ℕ) → rank_at j two_requests.0 ≤ count j in_turn
often_enough zero = omega arith
often_enough (suc zero) = omega arith
often_enough (suc (suc j)) = omega arith

pool_settles_example :
    all
      (λ (p : Phase User). is_done p)
      (run_schedule server.me server.refresh in_turn two_requests).0
    ≡ true
pool_settles_example = pool_settles server.me server.refresh in_turn two_requests often_enough

abbrev renewing : String → ℕ → Reply TokenPair × ℕ
renewing token n = (success (record { access_token = "a2"; refresh_token = "r2" }), n)

used-IsSignedIn : IsSignedIn "/" used_browser
used-IsSignedIn = record { in_window = refl; access = refl; again = refl; at_address = refl }

run_schedule-IsSignedIn_example :
    IsSignedIn "/" (run_schedule server.me renewing in_turn two_requests).1
run_schedule-IsSignedIn_example =
    run_schedule-IsSignedIn server.me renewing (λ token n. (refl, refl)) "/" in_turn two_requests
      used-IsSignedIn

abbrev one_refused : List (Phase User)
one_refused =
    refreshing fresh "r9" ∷ sending (record fresh { authorization = some "Bearer a1" }) ∷ []

refused_refresh_ends_session_example :
    let after = step_at server.me server.refresh 0 (one_refused, used_browser, 0) in
    (get_refresh_token after.1 ≡ none)
    × (get_access_token after.1 ≡ none)
    × (after.1.href ≡ "/login")
    × (get_elem? (step_at server.me server.refresh 1 after).0 1
        ≡ some (done (failure unauthorized)))
refused_refresh_ends_session_example =
    refused_refresh_ends_session server.me server.refresh 0 1 one_refused used_browser 0 fresh
      (record fresh { authorization = some "Bearer a1" }) "r9" offline unauthorized refl refl refl
      refl refl
