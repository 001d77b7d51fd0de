-- ===== src/Navigation/Redirects.antt =====
-- frontend/src/components/auth/AuthProvider.tsx: the effects of the provider, which run checkAuth of the session store
-- and send the user from one address to another.
pub mod Settling
use harmony_saas_multitenanc.Base.{
  String, Bool, true, false, not, Option, none, some, List, [], ◌∷◌, ◌++◌, ◌==◌, ◌&&◌, ◌||◌,
  if◌then◌else◌, contains, Outcome, returned, thrown,
}
use harmony_saas_multitenanc.AuthStore.{Store, check_auth}

unfoldable pub public_routes : List String
public_routes = "/login" ∷ "/register" ∷ "/" ∷ []

-- The calls of `router.push` of the second effect, for the values of a render.
unfoldable pub redirects : Bool → String → List String
unfolding public_routes
redirects is_authenticated pathname =
    (if not is_authenticated && not (contains public_routes pathname) then "/login" ∷ [] else [])
    ++ (if is_authenticated && (pathname == "/login" || pathname == "/register")
        then "/dashboard" ∷ []
        else [])

-- The session of the store, what the last render has read of it, the address, and the one to which a
-- navigation is under way.
pub record Visit : Type 0 where
  pub session : Bool
  pub is_authenticated : Bool
  pub pathname : String
  pub pushed : Option String

-- The last push is the one that counts.
abbrev pub last_push : List String → Option String → Option String
last_push [] old = old
last_push (target ∷ targets) old = last_push targets (some target)

-- The second effect, after a render.
unfoldable pub redirect : Visit → Visit
unfolding redirects
redirect v = record v { pushed = last_push (redirects v.is_authenticated v.pathname) v.pushed }

abbrev pub same : Bool → Bool → Bool
same true b = b
same false b = not b

-- A render reads the store as it is; the effect runs only if one of its two values has changed.
unfoldable pub render : String → Visit → Visit
unfolding redirect
render pathname v =
    if same v.is_authenticated v.session && v.pathname == pathname
    then v
    else redirect (record v { is_authenticated = v.session; pathname = pathname })

-- The provider is rendered again, or the navigation that is under way arrives.
pub data Turn : Type 0 where
  rerenders arrives : Turn

unfoldable pub turn : Turn → Visit → Visit
unfolding render
turn rerenders v = render v.pathname v
turn arrives v = elim v.pushed [
  | none ↦ v
  | some target ↦ render target (record v { pushed = none })
]

abbrev pub turns : List Turn → Visit → Visit
turns [] v = v
turns (t ∷ ts) v = turns ts (turn t v)

abbrev opened : Bool → Bool → String → Visit
opened session is_authenticated pathname = record {
  session = session;
  is_authenticated = is_authenticated;
  pathname = pathname;
  pushed = none;
}

abbrev pub checked : {W : Type 0} → Bool → String → Outcome (Store W) → Outcome (Store W × Visit)
checked is_authenticated pathname thrown = thrown
checked is_authenticated pathname (returned after) =
    returned (after, redirect (opened after.auth.is_authenticated is_authenticated pathname))

-- The first render and its two effects: checkAuth changes the store, and then the second effect runs with
-- what the render has read before.
unfoldable pub mount : {W : Type 0} → Store W → String → Outcome (Store W × Visit)
unfolding redirect
mount s pathname = checked s.auth.is_authenticated pathname (check_auth s)
