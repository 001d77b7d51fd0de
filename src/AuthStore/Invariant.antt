-- ===== src/AuthStore/Invariant.antt =====
-- What holds of the store of frontend/src/lib/store/authStore.ts after any actions, in any order.
use mathlib.Core.Path.{subst}
use harmony_saas_multitenanc.Base.{
  ◌<◌, true, false, Option, List, String, ◌≡◌, refl, is_some, Outcome, returned, arith, ap, some,
  none, thrown,
}
use harmony_saas_multitenanc.Auth.{User, Tenant}
use harmony_saas_multitenanc.Browser.{Browser}
use harmony_saas_multitenanc.Client.{Reply, success, failure}
use harmony_saas_multitenanc.AuthApi
use harmony_saas_multitenanc.AuthApi.{
  LoginRequest, RegisterRequest, LoginResponse, RegisterResponse, Server, get_stored_user,
  get_stored_tenant, get_current_user,
}
use harmony_saas_multitenanc.AuthStore.{
  AuthState, Store, initial, clear_error, check_auth, restored, deliver_features, login, register,
  logout, refresh_user, after_login, after_registration, after_me, started, restored_from,
}

-- A user is there whenever the session counts as authenticated, and no action leaves the store
-- loading.
pub record IsSound {W : Type 0} (s : Store W) : Type 0 where
  pub has_user : s.auth.is_authenticated ≡ true → is_some s.auth.user ≡ true
  pub settled : s.auth.is_loading ≡ false

-- One action, or the end of a load that is under way, or whatever other requests and other windows do
-- to the browser and the server.
pub data Step {W : Type 0} (server : Server W) (s : Store W) : Store W → Type 0 where
  logs_in : (request : LoginRequest) → Step server s (login server request s).1
  registers : (request : RegisterRequest) → Step server s (register server request s).1
  logs_out : Step server s (logout server s).1
  checks : {t : Store W} → check_auth s ≡ returned t → Step server s t
  clears : Step server s (clear_error s)
  refreshes : Step server s (refresh_user server s)
  delivers :
      (reply : Reply (Option (List String)))
      → 0 < s.loads
      → Step server s (deliver_features reply s)
  elsewhere : (b : Browser) (w : W) → Step server s (record s { browser = b; world = w })

pub data Reach {W : Type 0} (server : Server W) (s : Store W) : Store W → Type 0 where
  here : Reach server s s
  next : {t u : Store W} → Reach server s t → Step server t u → Reach server s u

module _ {W : Type 0} where
  after_login-IsSound :
      (s : Store W) (reply : Reply LoginResponse × Browser × W) → IsSound (after_login s reply).1
  after_login-IsSound s (success r, b, w) = record { has_user = λ _. refl; settled = refl }
  after_login-IsSound s (failure f, b, w) = record { has_user = λ h. cc; settled = refl }

  after_registration-IsSound :
      (s : Store W) (reply : Reply RegisterResponse × Browser × W)
      → IsSound (after_registration s reply).1
  after_registration-IsSound s (success r, b, w) = record { has_user = λ _. refl; settled = refl }
  after_registration-IsSound s (failure f, b, w) = record { has_user = λ h. cc; settled = refl }

  after_me-IsSound :
      (s : Store W) (reply : Reply User × Browser × W) → IsSound s → IsSound (after_me s reply)
  after_me-IsSound s (success u, b, w) h = record { has_user = λ _. refl; settled = h.settled }
  after_me-IsSound s (failure f, b, w) h = record { has_user = h.has_user; settled = h.settled }

  deliver-IsSound :
      (s : Store W) (reply : Reply (Option (List String)))
      → IsSound s
      → IsSound (deliver_features reply s)
  unfolding deliver_features
  deliver-IsSound s (success l) h = record { has_user = h.has_user; settled = h.settled }
  deliver-IsSound s (failure f) h = record { has_user = h.has_user; settled = h.settled }

  restored-IsSound :
      (user : Option User) (tenant : Option Tenant) (s : Store W)
      → IsSound s
      → IsSound (restored user tenant s)
  restored-IsSound none tenant s h = record { has_user = λ e. cc; settled = h.settled }
  restored-IsSound (some u) tenant s h = record { has_user = ground arith; settled = ground arith }

  restored_from-IsSound :
      (user : Outcome (Option User)) (tenant : Outcome (Option Tenant)) (s t : Store W)
      → restored_from user tenant s ≡ returned t
      → IsSound s
      → IsSound t
  restored_from-IsSound thrown tenant s t e h = cc
  restored_from-IsSound (returned user) thrown s t e h = cc
  restored_from-IsSound (returned user) (returned tenant) s t e h =
      let same : restored user tenant s ≡ t = cc in
      subst IsSound same (restored-IsSound user tenant s h)

  Step-IsSound : (server : Server W) {s t : Store W} → Step server s t → IsSound s → IsSound t
  unfolding login register logout clear_error refresh_user check_auth
  Step-IsSound server {s = s} (logs_in request) h =
      after_login-IsSound (started s) (AuthApi.login server request s.browser s.world)
  Step-IsSound server {s = s} (registers request) h =
      after_registration-IsSound (started s) (AuthApi.register server request s.browser s.world)
  Step-IsSound server logs_out h = record { has_user = λ e. cc; settled = h.settled }
  Step-IsSound server {s = s} {t = t} (checks e) h =
      restored_from-IsSound (get_stored_user s.browser) (get_stored_tenant s.browser) s t e h
  Step-IsSound server clears h = record { has_user = h.has_user; settled = h.settled }
  Step-IsSound server {s = s} refreshes h =
      after_me-IsSound s (get_current_user server s.browser s.world) h
  Step-IsSound server {s = s} (delivers reply p) h = deliver-IsSound s reply h
  Step-IsSound server (elsewhere b w) h = record { has_user = h.has_user; settled = h.settled }

  -- From the initial store, whatever the actions, their order and the answers of the server, an
  -- authenticated session has a user and no action leaves the store loading.
  pub Reach-IsSound :
      (server : Server W) {s t : Store W} → s.auth ≡ initial → Reach server s t → IsSound t
  Reach-IsSound server {s = s} e here = record {
    has_user = λ h.
        let out : s.auth.is_authenticated ≡ false = ap (λ (a : AuthState). a.is_authenticated) e in
        cc;
    settled = ap (λ (a : AuthState). a.is_loading) e;
  }
  Reach-IsSound server e (next r st) = Step-IsSound server st (Reach-IsSound server e r)
