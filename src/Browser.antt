-- ===== src/Browser.antt =====
-- The browser as the program uses it: whether there is a window, the local storage, the cookie
-- `user` and the address (frontend/src/lib/api/client.ts, lib/api/auth.ts and lib/store/authStore.ts).
-- Each key of the storage that the program names is a field.
use harmony_saas_multitenanc.Base.{
  String, Bool, Option, none, some, List, [], ◌==◌, if◌then◌else◌, Outcome, returned, thrown,
}
use harmony_saas_multitenanc.Auth.{User, Tenant}

-- A text that is stored for a value: its JSON, the empty text, or a text that is not JSON, which
-- only another program writes.
pub data Stored (A : Type 0) : Type 0 where
  json : A → Stored A
  blank : Stored A
  garbage : Stored A

pub record LocalStorage : Type 0 where
  pub access_token : Option String
  pub refresh_token : Option String
  pub tenant_id : Option String
  pub branch_id : Option String
  pub user : Option (Stored User)
  pub tenant : Option (Stored Tenant)
  pub features : Option (Stored (List String))
  pub others : List (String × String)

pub record Browser : Type 0 where
  pub window : Bool
  pub local : LocalStorage
  pub user_cookie : Option User
  pub href : String

-- `localStorage.clear()`
abbrev pub cleared : LocalStorage
cleared = record {
  access_token = none;
  refresh_token = none;
  tenant_id = none;
  branch_id = none;
  user = none;
  tenant = none;
  features = none;
  others = [];
}

-- Without a window the program leaves the storage alone.
abbrev pub with_window : Browser → LocalStorage → Browser
with_window b local = if b.window then record b { local = local } else b

-- `if (text)`: the empty text counts as none
abbrev pub truthy : Option String → Option String
truthy none = none
truthy (some s) = if s == "" then none else some s

-- `text ? JSON.parse(text) : null`
unfoldable pub parse_stored : {A : Type 0} → Option (Stored A) → Outcome (Option A)
parse_stored none = returned none
parse_stored (some blank) = returned none
parse_stored (some (json a)) = returned (some a)
parse_stored (some garbage) = thrown
