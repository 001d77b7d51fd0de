-- ===== src/Tests/Visiting.antt =====
-- The public pages at concrete inputs.
use harmony_saas_multitenanc.Base.{ℕ, ◌≡◌, refl, true, false, none, some, returned}
use harmony_saas_multitenanc.Client.{
  success, failure, bearer, fresh, on_request, client, client_step, on_reply,
}
use harmony_saas_multitenanc.AuthStore.{Store, check_auth}
use harmony_saas_multitenanc.AuthStore.Session.{reload}
use harmony_saas_multitenanc.Public.{
  PublicPage, InviteForm, Accounts, password_error, password_strength, strong, weak, submit_reset,
  submit_invite, token_text,
}
use harmony_saas_multitenanc.Public.Outcomes.{IsAllowed, Submitted, submit_reset_outcome}
use harmony_saas_multitenanc.Public.Mixed.{invitation_mixes_sessions}
use harmony_saas_multitenanc.Tests.Sample.{used_browser, owner_user, shop, start, unauthorized}

-- A server that accepts everything but a forgotten password.
abbrev accounts : Accounts ℕ
accounts = record {
  forgot_password = λ email config n. (failure unauthorized, n);
  reset_password = λ request config n. (success tt, n);
  verify_email = λ token config n. (success tt, n);
  accept_invite = λ request config n. (
    success (record { tokens = some (record { access_token = "a3"; refresh_token = "r3" }) }),
    n,
  );
  refresh = λ token n. (failure unauthorized, n);
}

abbrev opened : PublicPage
opened = record { is_loading = false; error = none; success = false; leaves = false }

abbrev filled : InviteForm
filled = record {
  password = "longer password";
  confirm_password = "longer password";
  first_name = "Ayu";
  last_name = "";
}

strengths : (password_strength "password" ≡ weak) × (password_strength "Passw0rd" ≡ strong)
unfolding password_strength
strengths = (refl, refl)

too_short_is_refused :
    password_error "Invalid reset token" "short" "short" (some "t")
    ≡ some "Password must be at least 8 characters long"
unfolding password_error
too_short_is_refused = refl

-- Four characters beyond the first plane count as eight.
wide_is_allowed : password_error "Invalid reset token" "😀😀😀😀" "😀😀😀😀" (some "t") ≡ none
unfolding password_error
wide_is_allowed = refl

submit_reset_outcome_example :
    let run =
      client
        (accounts.reset_password
          (record { token = token_text (some "t"); new_password = "longer password" }))
        accounts.refresh
        fresh
        used_browser
        0 in
    Submitted
      (IsAllowed "longer password" "longer password" (some "t"))
      run.0
      (run.1, run.2)
      (submit_reset accounts (some "t") "longer password" "longer password" opened used_browser 0)
      used_browser
      0
submit_reset_outcome_example =
    submit_reset_outcome accounts (some "t") opened used_browser 0 refl refl "longer password"
      "longer password"

abbrev invited : Store ℕ
invited = record (start used_browser) {
  browser = (submit_invite accounts (some "t") filled opened used_browser 0).1;
}

invitation_mixes_sessions_example :
    ((on_request invited.browser fresh).authorization ≡ some (bearer "a3"))
    × ((on_request invited.browser fresh).x_tenant_id ≡ some shop.id)
    × ((after : Store ℕ) × (check_auth (reload invited) ≡ returned after)
        × (after.auth.user ≡ some owner_user)
        × (after.auth.tenant ≡ some shop)
        × (after.auth.is_authenticated ≡ true))
unfolding client client_step on_reply password_error
invitation_mixes_sessions_example =
    invitation_mixes_sessions accounts (some "t") filled opened used_browser 0
      (record { tokens = some (record { access_token = "a3"; refresh_token = "r3" }) })
      (record { access_token = "a3"; refresh_token = "r3" }) owner_user shop fresh invited refl refl
      refl (record { in_window = refl; user = refl; tenant = refl; tenant_id = refl }) refl refl
      refl
