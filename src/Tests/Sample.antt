-- ===== src/Tests/Sample.antt =====
-- The users, the tenant and the server of the tests.
use harmony_saas_multitenanc.Base.{ℕ, suc, true, false, none, some, [], ◌∷◌, ◌==◌, if◌then◌else◌}
use harmony_saas_multitenanc.Auth.{User, Tenant, Tokens, SystemRole, TenantRole}
use harmony_saas_multitenanc.Browser.{Browser, cleared, json}
use harmony_saas_multitenanc.Client.{Config, Reply, success, failure, Failure}
use harmony_saas_multitenanc.AuthApi.{LoginRequest, LoginResponse, Server}
use harmony_saas_multitenanc.AuthStore.{Store, initial}

abbrev pub nobody : User
nobody = record {
  id = "u0";
  email = "u@example.com";
  first_name = none;
  last_name = none;
  full_name = none;
  phone = none;
  tenant_id = none;
  system_role = none;
  tenant_role = none;
  business_role = none;
  role = "";
  is_super_admin = false;
  default_branch_id = none;
  avatar_url = none;
  is_active = true;
  is_verified = true;
  created_at = "2026-01-01";
  last_login_at = none;
}

abbrev pub operator_user : User
operator_user = record nobody { system_role = some SystemRole.operator }

abbrev pub owner_user : User
owner_user = record nobody { tenant_id = some "t1"; tenant_role = some TenantRole.owner }

abbrev pub shop : Tenant
shop = record { id = "t1"; name = "Shop"; subdomain = "shop"; tier = "basic" }

abbrev pub tokens : Tokens
tokens = record { access_token = "a1"; refresh_token = "r1"; token_type = "bearer" }

abbrev pub unauthorized : Failure
unauthorized = record { response = some (record { status = 401; body = none }); has_config = true }

abbrev pub offline : Failure
offline = record { response = none; has_config = true }

-- A server that accepts the token "a2" only, renews "r1" to it, and counts the calls. It answers the
-- operator's address with the operator, and any other with the owner of the shop.
abbrev pub guarded : {A : Type 0} → A → Config → ℕ → Reply A × ℕ
guarded answer config n = elim config.authorization [
  | some t ↦ (if t == "Bearer a2" then success answer else failure unauthorized, suc n)
  | none ↦ (failure unauthorized, suc n)
]

abbrev pub answer_login : LoginRequest → LoginResponse
answer_login request =
    if request.email == "operator"
    then record { user = operator_user; tenant = none; tokens = tokens }
    else record { user = owner_user; tenant = some shop; tokens = tokens }

abbrev pub server : Server ℕ
server = record {
  login = λ request config n. (success (answer_login request), suc n);
  register = λ request config n. (
    success (record { message = ""; user = owner_user; tenant = some shop; tokens = tokens }),
    suc n,
  );
  logout = λ config n. (failure offline, suc n);
  me = λ config n. guarded owner_user config n;
  features = λ config n. guarded (some ("pos.shifts" ∷ [])) config n;
  renew = λ token config n. (failure offline, suc n);
  refresh = λ token n. (
    if token == "r1"
        then success (record { access_token = "a2"; refresh_token = "r2" })
        else failure offline,
    suc n,
  );
}

abbrev pub blank_browser : Browser
blank_browser = record { window = true; local = cleared; user_cookie = none; href = "/" }

-- A browser in which the owner of the shop has a session with an old access token.
abbrev pub used_browser : Browser
used_browser = record blank_browser {
  local = record cleared {
    access_token = some "a1";
    refresh_token = some "r1";
    tenant_id = some "t1";
    user = some (json owner_user);
    tenant = some (json shop);
  };
}

abbrev pub start : Browser → Store ℕ
start b = record { auth = initial; browser = b; world = 0; loads = 0 }
