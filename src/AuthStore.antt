-- ===== src/AuthStore.antt =====
-- frontend/src/lib/store/authStore.ts: the store of the session, with its actions. `loadFeatures` is started
-- by other actions and not awaited: a store counts the loads that are under way, and `deliver_features` is
-- the end of one of them.
pub mod Session
pub mod Invariant
pub mod Stale
pub mod Races
use Prim.Native.String
use harmony_saas_multitenanc.Base.{
  ℕ, suc, ◌-◌, String, Bool, true, false, ◌||◌, Option, none, some, List, [], ◌∷◌, ◌==◌, is_some,
  if◌then◌else◌, Outcome, returned, thrown,
}
use harmony_saas_multitenanc.Auth.{User, Tenant, is_system_user}
use harmony_saas_multitenanc.Browser.{Browser, Stored, json, blank, garbage, with_window}
use harmony_saas_multitenanc.Client.{
  Failure, Response, ErrorBody, ErrorObject, Detail, absent, text, messages, Reply, success,
  failure,
}
use harmony_saas_multitenanc.AuthApi
use harmony_saas_multitenanc.AuthApi.{
  LoginRequest, LoginResponse, RegisterRequest, RegisterResponse, Server, get_stored_user,
  get_stored_tenant, set_stored_user, get_current_user,
}

pub record AuthState : Type 0 where
  pub user : Option User
  pub tenant : Option Tenant
  pub features : List String
  pub is_authenticated : Bool
  pub is_loading : Bool
  pub error : Option String

abbrev pub initial : AuthState
initial = record {
  user = none;
  tenant = none;
  features = [];
  is_authenticated = false;
  is_loading = false;
  error = none;
}

pub record Store (W : Type 0) : Type 0 where
  pub auth : AuthState
  pub browser : Browser
  pub world : W
  pub loads : ℕ

-- `texts.join('. ')`
join : List String → String
join [] = ""
join (s ∷ []) = s
join (s ∷ t ∷ rest) = String.◌++◌ s (String.◌++◌ ". " (join (t ∷ rest)))

abbrev or_message : String → Option String → String
or_message fallback none = fallback
or_message fallback (some m) = if m == "" then fallback else m

object_message : String → ErrorObject → String
object_message fallback e = elim e.details [
  | some (d ∷ ds) ↦ join (d ∷ ds)
  | some [] ↦ or_message fallback e.message
  | none ↦ or_message fallback e.message
]

detail_message : String → Detail → String
detail_message fallback absent = fallback
detail_message fallback (text s) = s
detail_message fallback (messages []) = fallback
detail_message fallback (messages (m ∷ ms)) = join (m ∷ ms)

body_message : String → ErrorBody → String
body_message fallback body = elim body.error [
  | some e ↦ object_message fallback e
  | none ↦ detail_message fallback body.detail
]

-- The message that is shown for a failed login or registration.
unfoldable pub error_message : String → Failure → String
unfolding body_message object_message detail_message join
error_message fallback f = elim f.response [
  | none ↦ fallback
  | some r ↦ elim r.body [ none ↦ fallback | some body ↦ body_message fallback body ]
]

-- `if (tenant) loadFeatures()`, not awaited
abbrev start_load : Option Tenant → ℕ → ℕ
start_load none loads = loads
start_load (some _) loads = suc loads

-- the cached features, `[]` where the stored text cannot be read
abbrev cached_features : Browser → List String
cached_features b = elim (if b.window then b.local.features else none) [
  | some (json features) ↦ features
  | some blank ↦ []
  | some garbage ↦ []
  | none ↦ []
]

-- `response.features || []`
abbrev or_empty : Option (List String) → List String
or_empty none = []
or_empty (some features) = features

module _ {W : Type 0} where
  abbrev signed_in : User → Option Tenant → Store W → Store W
  signed_in user tenant s = record s {
    auth = record s.auth {
      user = some user;
      tenant = tenant;
      is_authenticated = true;
      is_loading = false;
      error = none;
    };
    loads = start_load tenant s.loads;
  }

  abbrev refused : String → Failure → Store W → Store W
  refused fallback f s = record s {
    auth = record s.auth {
      error = some (error_message fallback f);
      is_loading = false;
      is_authenticated = false;
    };
  }

  abbrev started : Store W → Store W
  started s = record s { auth = record s.auth { is_loading = true; error = none } }

  abbrev after_login : Store W → Reply LoginResponse × Browser × W → Reply (Unit {0}) × Store W
  after_login s (success r, b, w) =
      (success tt, signed_in r.user r.tenant (record s { browser = b; world = w }))
  after_login s (failure f, b, w) =
      (failure f, refused "Login failed" f (record s { browser = b; world = w }))

  abbrev after_registration :
      Store W → Reply RegisterResponse × Browser × W → Reply (Unit {0}) × Store W
  after_registration s (success r, b, w) =
      (success tt, signed_in r.user r.tenant (record s { browser = b; world = w }))
  after_registration s (failure f, b, w) =
      (failure f, refused "Registration failed" f (record s { browser = b; world = w }))

  abbrev after_me : Store W → Reply User × Browser × W → Store W
  after_me s (success user, b, w) = record s {
    auth = record s.auth { user = some user };
    browser = set_stored_user user b;
    world = w;
  }
  after_me s (failure f, b, w) = record s { browser = b; world = w }

  unfoldable pub clear_error : Store W → Store W
  clear_error s = record s { auth = record s.auth { error = none } }

  abbrev restored : Option User → Option Tenant → Store W → Store W
  restored none tenant s = record s {
    auth = record s.auth { user = none; tenant = none; features = []; is_authenticated = false };
  }
  restored (some user) tenant s =
      if is_system_user (some user) || is_some tenant
      then record s {
        auth = record s.auth {
          user = some user;
          tenant = tenant;
          features = cached_features s.browser;
          is_authenticated = true;
        };
        loads = start_load tenant s.loads;
      }
      else record s {
        auth = record s.auth {
          user = none;
          tenant = none;
          features = [];
          is_authenticated = false;
        };
      }

  abbrev restored_from :
      Outcome (Option User) → Outcome (Option Tenant) → Store W → Outcome (Store W)
  restored_from thrown tenant s = thrown
  restored_from (returned user) thrown s = thrown
  restored_from (returned user) (returned tenant) s = returned (restored user tenant s)

  -- It throws where a stored user or tenant is not JSON.
  unfoldable pub check_auth : Store W → Outcome (Store W)
  check_auth s = restored_from (get_stored_user s.browser) (get_stored_tenant s.browser) s

  -- The end of a load: the list, or an error, which leaves the cached features.
  unfoldable pub deliver_features : Reply (Option (List String)) → Store W → Store W
  deliver_features (success response) s = record s {
    auth = record s.auth { features = or_empty response };
    browser =
        with_window s.browser
          (record s.browser.local { features = some (json (or_empty response)) });
    loads = s.loads - 1;
  }
  deliver_features (failure f) s = record s { loads = s.loads - 1 }

module _ {W : Type 0} (server : Server W) where
  unfoldable pub login : LoginRequest → Store W → Reply (Unit {0}) × Store W
  login request s =
      let s' = started s in after_login s' (AuthApi.login server request s'.browser s'.world)

  unfoldable pub register : RegisterRequest → Store W → Reply (Unit {0}) × Store W
  register request s =
      let s' = started s in
      after_registration s' (AuthApi.register server request s'.browser s'.world)

  unfoldable pub logout : Store W → Reply (Unit {0}) × Store W
  logout s =
      let (reply, b, w) = AuthApi.logout server s.browser s.world in
      (
        reply,
        record s {
          auth = record s.auth {
            user = none;
            tenant = none;
            features = [];
            is_authenticated = false;
            error = none;
          };
          browser = with_window b (record b.local { features = none });
          world = w;
        },
      )

  unfoldable pub refresh_user : Store W → Store W
  refresh_user s = after_me s (get_current_user server s.browser s.world)
