-- ===== src/Client.antt =====
-- frontend/src/lib/api/client.ts: the tokens in the storage, the two interceptors, and a request through
-- them. The functions `send` and `refresh` stand for axios and the server, and `W` for the state that
-- they change.
pub mod Laws
pub mod Trace
pub mod Steps
pub mod Pool
use Prim.Native.String
use mathlib.Core.Option
use harmony_saas_multitenanc.Base.{
  ℕ, String, Bool, true, false, not, ◌&&◌, Option, none, some, List, nat_eq, if◌then◌else◌,
}
use harmony_saas_multitenanc.Browser.{Browser, LocalStorage, with_window, truthy}

-- What the interceptors read and write of a request's configuration.
pub record Config : Type 0 where
  pub authorization : Option String
  pub x_tenant_id : Option String
  pub x_branch_id : Option String
  pub retry : Bool

abbrev pub fresh : Config
fresh = record { authorization = none; x_tenant_id = none; x_branch_id = none; retry = false }

-- The two shapes of the field `detail` of an error's body.
pub data Detail : Type 0 where
  absent : Detail
  text : String → Detail
  messages : List String → Detail

pub record ErrorObject : Type 0 where
  pub message : Option String
  pub details : Option (List String)

pub record ErrorBody : Type 0 where
  pub detail : Detail
  pub error : Option ErrorObject

pub record Response : Type 0 where
  pub status : ℕ
  pub body : Option ErrorBody

-- An `AxiosError`: its response, if one came, and whether it carries the request's configuration.
pub record Failure : Type 0 where
  pub response : Option Response
  pub has_config : Bool

pub data Reply (A : Type 0) : Type 0 where
  success : A → Reply A
  failure : Failure → Reply A

pub record TokenPair : Type 0 where
  pub access_token : String
  pub refresh_token : String

-- Without a window there is no token.
abbrev stored : Browser → Option String → Option String
stored b value = if b.window then value else none

unfoldable pub get_access_token : Browser → Option String
get_access_token b = stored b b.local.access_token

unfoldable pub get_refresh_token : Browser → Option String
get_refresh_token b = stored b b.local.refresh_token

unfoldable pub get_tenant_id : Browser → Option String
get_tenant_id b = stored b b.local.tenant_id

unfoldable pub get_branch_id : Browser → Option String
get_branch_id b = stored b b.local.branch_id

unfoldable pub set_access_token : String → Browser → Browser
set_access_token token b = with_window b (record b.local { access_token = some token })

unfoldable pub set_refresh_token : String → Browser → Browser
set_refresh_token token b = with_window b (record b.local { refresh_token = some token })

unfoldable pub set_tenant_id : String → Browser → Browser
set_tenant_id id b = with_window b (record b.local { tenant_id = some id })

unfoldable pub set_branch_id : String → Browser → Browser
set_branch_id id b = with_window b (record b.local { branch_id = some id })

unfoldable pub clear_auth : Browser → Browser
clear_auth b = with_window b (record b.local {
  access_token = none;
  refresh_token = none;
  tenant_id = none;
  branch_id = none;
  user = none;
  tenant = none;
})

abbrev pub bearer : String → String
bearer token = String.◌++◌ "Bearer " token

-- `if (value) headers[name] = value`
abbrev header : Option String → Option String → Option String
header none old = old
header (some value) old = some value

-- the request interceptor
unfoldable pub on_request : Browser → Config → Config
unfolding get_access_token get_tenant_id get_branch_id
on_request b config = record {
  authorization = header (Option.map bearer (truthy (get_access_token b))) config.authorization;
  x_tenant_id = header (truthy (get_tenant_id b)) config.x_tenant_id;
  x_branch_id = header (truthy (get_branch_id b)) config.x_branch_id;
  retry = config.retry;
}

unfoldable pub is_unauthorized : Failure → Bool
is_unauthorized f = elim f.response [ none ↦ false | some r ↦ nat_eq r.status 401 ]

-- `window.location.href = '/login'`
unfoldable pub redirect_to_login : Browser → Browser
redirect_to_login b = if b.window then record b { href = "/login" } else b

module _ {W A : Type 0} (send : Config → W → Reply A × W)
    (refresh : String → W → Reply TokenPair × W) where
  abbrev pub Run : Type 0
  Run = Reply A × Browser × W

  -- The branch of the response interceptor after a call of the refresh endpoint. A failure of the
  -- request that is sent again is returned, for the `try` does not await it.
  unfoldable pub after_refresh :
      (Config → Browser → W → Run) → Config → Browser → Reply TokenPair × W → Run
  after_refresh again config b (success pair, w) =
      again (record config { authorization = some (bearer pair.access_token) })
        (set_refresh_token pair.refresh_token (set_access_token pair.access_token b)) w
  after_refresh again config b (failure f, w) = (failure f, redirect_to_login (clear_auth b), w)

  -- the response interceptor; `again` is `this.client`
  unfoldable pub on_error : (Config → Browser → W → Run) → Config → Failure → Browser → W → Run
  on_error again config f b w =
      if is_unauthorized f && f.has_config && not config.retry
      then elim (truthy (get_refresh_token b)) [
        | some token ↦ after_refresh again (record config { retry = true }) b (refresh token w)
        | none ↦ (failure f, b, w)
      ]
      else (failure f, b, w)

  unfoldable pub on_reply : (Config → Browser → W → Run) → Config → Browser → Reply A × W → Run
  on_reply again config b (success a, w) = (success a, b, w)
  on_reply again config b (failure f, w) = on_error again config f b w

  -- One pass of a request through the interceptors.
  unfoldable pub client_step : (Config → Browser → W → Run) → Config → Browser → W → Run
  client_step again config b w =
      let config' = on_request b config in on_reply again config' b (send config' w)

  -- It stands for a third pass, which is never made.
  abbrev pub lost : Config → Browser → W → Run
  lost config b w = (failure (record { response = none; has_config = false }), b, w)

  -- `this.client(config)`: a request that is sent again is marked, and is not sent a third time.
  unfoldable pub client : Config → Browser → W → Run
  client config b w = client_step (client_step lost) config b w
