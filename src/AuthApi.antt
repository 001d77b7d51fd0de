-- ===== src/AuthApi.antt =====
-- frontend/src/lib/api/auth.ts: the calls of the authentication endpoints, and the session that they keep in
-- the browser. `Server` stands for the backend behind axios; every call goes through `Client.client`.
use harmony_saas_multitenanc.Base.{String, Option, none, some, List, if◌then◌else◌, Outcome}
use harmony_saas_multitenanc.Auth.{User, Tenant, Tokens}
use harmony_saas_multitenanc.Browser.{Browser, json, cleared, with_window, truthy, parse_stored}
use harmony_saas_multitenanc.Client.{
  Config, fresh, Failure, Reply, success, failure, TokenPair, set_access_token, set_refresh_token,
  set_tenant_id, clear_auth, client,
}

pub record LoginRequest : Type 0 where
  pub email : String
  pub password : String
  pub tenant_subdomain : Option String

pub record LoginResponse : Type 0 where
  pub user : User
  pub tenant : Option Tenant
  pub tokens : Tokens

pub record RegisterRequest : Type 0 where
  pub admin_email : String
  pub admin_password : String
  pub admin_name : String
  pub company_name : Option String
  pub subdomain : Option String

pub record RegisterResponse : Type 0 where
  pub message : String
  pub user : User
  pub tenant : Option Tenant
  pub tokens : Tokens

-- The endpoints, over the state `W` of everything outside the browser. `refresh` is the call that the
-- interceptor makes by itself, `renew` the same endpoint called through the client, and `features` may
-- answer without its list.
pub record Server (W : Type 0) : Type 0 where
  pub login : LoginRequest → Config → W → Reply LoginResponse × W
  pub register : RegisterRequest → Config → W → Reply RegisterResponse × W
  pub logout : Config → W → Reply (Unit {0}) × W
  pub me : Config → W → Reply User × W
  pub features : Config → W → Reply (Option (List String)) × W
  pub renew : String → Config → W → Reply TokenPair × W
  pub refresh : String → W → Reply TokenPair × W

-- An error of the API, or one that the program makes itself.
pub data ApiError : Type 0 where
  api : Failure → ApiError
  plain : String → ApiError

pub data Result (A : Type 0) : Type 0 where
  ok : A → Result A
  err : ApiError → Result A

abbrev store_tokens : Tokens → Browser → Browser
store_tokens tokens b =
    set_refresh_token tokens.refresh_token (set_access_token tokens.access_token b)

-- `if (response.tenant) apiClient.setTenantId(response.tenant.id)`
abbrev store_tenant_id : Option Tenant → Browser → Browser
store_tenant_id none b = b
store_tenant_id (some tenant) b = set_tenant_id tenant.id b

-- `user` is always written, `tenant` only if there is one
abbrev store_profile : User → Option Tenant → Browser → Browser
store_profile user none b = with_window b (record b.local { user = some (json user) })
store_profile user (some tenant) b =
    with_window b (record b.local { user = some (json user); tenant = some (json tenant) })

abbrev store_cookie : Option User → Browser → Browser
store_cookie cookie b = if b.window then record b { user_cookie = cookie } else b

-- What `login` keeps of a response.
unfoldable pub keep_login : LoginResponse → Browser → Browser
keep_login r b =
    store_cookie (some r.user)
      (store_profile r.user r.tenant (store_tenant_id r.tenant (store_tokens r.tokens b)))

-- What `register` keeps: there is no cookie.
unfoldable pub keep_registration : RegisterResponse → Browser → Browser
keep_registration r b =
    store_profile r.user r.tenant (store_tenant_id r.tenant (store_tokens r.tokens b))

-- What `logout` leaves of a browser.
unfoldable pub forget : Browser → Browser
forget b = let b' = clear_auth b in store_cookie none (with_window b' cleared)

unfoldable pub get_stored_user : Browser → Outcome (Option User)
get_stored_user b = parse_stored (if b.window then b.local.user else none)

unfoldable pub get_stored_tenant : Browser → Outcome (Option Tenant)
get_stored_tenant b = parse_stored (if b.window then b.local.tenant else none)

unfoldable pub set_stored_user : User → Browser → Browser
set_stored_user user b =
    store_cookie (some user) (with_window b (record b.local { user = some (json user) }))

-- A response is kept before it is returned; a failure is thrown on.
abbrev pub on_success :
    {A W : Type 0} → (A → Browser → Browser) → Reply A × Browser × W → Reply A × Browser × W
on_success keep (success a, b, w) = (success a, keep a b, w)
on_success keep (failure f, b, w) = (failure f, b, w)

abbrev renewed : {W : Type 0} → Reply TokenPair × Browser × W → Result TokenPair × Browser × W
renewed (success pair, b, w) =
    (ok pair, set_refresh_token pair.refresh_token (set_access_token pair.access_token b), w)
renewed (failure f, b, w) = (err (api f), clear_auth b, w)

module _ {W : Type 0} (server : Server W) where
  unfoldable pub login : LoginRequest → Browser → W → Reply LoginResponse × Browser × W
  login data' b w = on_success keep_login (client (server.login data') server.refresh fresh b w)

  unfoldable pub register : RegisterRequest → Browser → W → Reply RegisterResponse × Browser × W
  register data' b w =
      on_success keep_registration (client (server.register data') server.refresh fresh b w)

  -- the `finally` forgets the session whether or not the server answered
  unfoldable pub logout : Browser → W → Reply (Unit {0}) × Browser × W
  logout b w =
      let (reply, b', w') = client server.logout server.refresh fresh b w in (reply, forget b', w')

  unfoldable pub get_current_user : Browser → W → Reply User × Browser × W
  get_current_user b w = client server.me server.refresh fresh b w

  unfoldable pub refresh_token : Browser → W → Result TokenPair × Browser × W
  refresh_token b w =
      if b.window
      then elim (truthy b.local.refresh_token) [
        | none ↦ (err (plain "No refresh token available"), b, w)
        | some token ↦ renewed (client (server.renew token) server.refresh fresh b w)
      ]
      else (err (plain "Cannot refresh token on server side"), b, w)
