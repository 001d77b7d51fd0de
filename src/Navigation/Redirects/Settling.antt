-- ===== src/Navigation/Redirects/Settling.antt =====
-- frontend/src/components/auth/AuthProvider.tsx: where a user who opens a page ends, by the redirects of the
-- provider alone.
use mathlib.Core.Path.{subst}
use harmony_saas_multitenanc.Base.{
  String, Bool, true, false, Option, none, some, List, [], ◌∷◌, ◌≡◌, refl, ◌==◌, ◌||◌,
  if◌then◌else◌, contains, returned, arith, eq_iff, Bool-cases, inl, inr, ◌⊎◌,
}
use harmony_saas_multitenanc.AuthStore.{Store, check_auth}
use harmony_saas_multitenanc.Navigation.Redirects.{
  Visit, Turn, rerenders, arrives, public_routes, redirects, redirect, render, turn, turns, mount,
}

-- Where the visit of an address ends, with a session and without one.
abbrev pub destination : Bool → String → String
destination true pathname = if pathname == "/" then "/" else "/dashboard"
destination false pathname = if contains public_routes pathname then pathname else "/login"

abbrev visit : Bool → Bool → String → Option String → Visit
visit session is_authenticated pathname pushed = record {
  session = session;
  is_authenticated = is_authenticated;
  pathname = pathname;
  pushed = pushed;
}

login_public : contains public_routes "/login" ≡ true
unfolding contains public_routes
login_public = refl

-- A protected page is none of those that a session leaves.
not_auth_page :
    (pathname : String)
    → contains public_routes pathname ≡ false
    → (pathname == "/login" || pathname == "/register") ≡ false
unfolding contains public_routes
not_auth_page pathname h = ground (
  arith,
  eq_iff pathname "/login",
  eq_iff "/login" pathname,
  eq_iff pathname "/register",
  eq_iff "/register" pathname,
)

dashboard_protected : contains public_routes "/dashboard" ≡ false
unfolding contains public_routes
dashboard_protected = refl

not_dashboard :
    (pathname : String)
    → contains public_routes pathname ≡ true
    → (pathname == "/dashboard") ≡ false
not_dashboard pathname h = elim (Bool-cases (pathname == "/dashboard")) [
  | inl k ↦ absurd (cc (h, (eq_iff pathname "/dashboard").0 k, dashboard_protected))
  | inr k ↦ k
]

-- A public page is the home page, or a session leaves it.
public_cases :
    (pathname : String)
    → contains public_routes pathname ≡ true
    → (pathname ≡ "/")
      ⊎ ((pathname == "/login" || pathname == "/register") ≡ true)
        × ((pathname == "/") ≡ false)
        × ((pathname == "/dashboard") ≡ false)
unfolding contains public_routes
public_cases pathname h = elim (Bool-cases (pathname == "/")) [
  | inl k ↦ inl ((eq_iff pathname "/").0 k)
  | inr k ↦
      let auth_page : (pathname == "/login" || pathname == "/register") ≡ true = ground (
        arith,
        eq_iff pathname "/login",
        eq_iff "/login" pathname,
        eq_iff pathname "/register",
        eq_iff "/register" pathname,
        eq_iff pathname "/",
        eq_iff "/" pathname,
      ) in
      inr (auth_page, k, not_dashboard pathname h)
]

home_protected :
    (pathname : String) → contains public_routes pathname ≡ false → (pathname == "/") ≡ false
unfolding contains public_routes
home_protected pathname h = ground (arith, eq_iff pathname "/", eq_iff "/" pathname)

not_login :
    (pathname : String) → contains public_routes pathname ≡ false → (pathname == "/login") ≡ false
unfolding contains public_routes
not_login pathname h = ground (arith, eq_iff pathname "/login", eq_iff "/login" pathname)

-- A destination is not left.
redirects-destination : (b : Bool) (pathname : String) → redirects b (destination b pathname) ≡ []
unfolding redirects
redirects-destination true pathname = elim (Bool-cases (pathname == "/")) [
  | inl h ↦ rw h refl
  | inr h ↦ rw h refl
]
redirects-destination false pathname = elim (Bool-cases (contains public_routes pathname)) [
  | inl h ↦ rw (h, h) refl
  | inr h ↦ rw (h, login_public) refl
]

redirects-protected :
    (pathname : String) → contains public_routes pathname ≡ false → redirects true pathname ≡ []
unfolding redirects
redirects-protected pathname h = rw (not_auth_page pathname h) refl

-- The stages of a visit.
data Stage (pathname : String) : Visit → Type 0 where
  settled : (b : Bool) → Stage pathname (visit b b (destination b pathname) none)
  leaving :
      (b : Bool) (from : String)
      → (from == destination b pathname) ≡ false
      → Stage pathname (visit b b from (some (destination b pathname)))
  unseen : contains public_routes pathname ≡ true → Stage pathname (visit true false pathname none)
  unseen_login :
      contains public_routes pathname ≡ false
      → Stage pathname (visit true false pathname (some "/login"))
  seen_login :
      contains public_routes pathname ≡ false
      → Stage pathname (visit true true pathname (some "/login"))

-- Nothing changes for a render that has seen the store.
rerender-same :
    (b : Bool) (pathname : String) (pushed : Option String)
    → turn rerenders (visit b b pathname pushed) ≡ visit b b pathname pushed
unfolding turn render
rerender-same true pathname pushed = rw ((eq_iff pathname pathname).1 refl) refl
rerender-same false pathname pushed = rw ((eq_iff pathname pathname).1 refl) refl

arrive-leaving :
    (b : Bool) (from pathname : String)
    → (from == destination b pathname) ≡ false
    → turn arrives (visit b b from (some (destination b pathname)))
      ≡ visit b b (destination b pathname) none
unfolding turn render redirect
arrive-leaving true from pathname h = rw (h, redirects-destination true pathname) refl
arrive-leaving false from pathname h = rw (h, redirects-destination false pathname) refl

rerender-auth_page :
    (pathname : String)
    → (pathname == "/login" || pathname == "/register") ≡ true
    → (pathname == "/") ≡ false
    → turn rerenders (visit true false pathname none)
      ≡ visit true true pathname (some (destination true pathname))
unfolding turn render redirect redirects
rerender-auth_page pathname h k = rw (h, k) refl

-- The home page stays; of the other public pages the session sends the user away.
rerender-unseen :
    (pathname : String)
    → contains public_routes pathname ≡ true
    → Stage pathname (turn rerenders (visit true false pathname none))
      × (turn arrives (turn arrives (turn rerenders (visit true false pathname none)))
          ≡ visit true true (destination true pathname) none)
unfolding turn render redirect redirects
rerender-unseen pathname c = elim (public_cases pathname c) [
  | inl e ↦ rw e (settled true, refl)
  | inr (h, k, d) ↦
      let n : (pathname == destination true pathname) ≡ false = rw (k, d) refl in
      rw (rerender-auth_page pathname h k)
        (leaving true pathname n, rw (arrive-leaving true pathname pathname n) refl)
]

rerender-unseen_login :
    (pathname : String)
    → contains public_routes pathname ≡ false
    → turn rerenders (visit true false pathname (some "/login"))
      ≡ visit true true pathname (some "/login")
unfolding turn render redirect
rerender-unseen_login pathname h = rw (redirects-protected pathname h) refl

-- The navigation to the login page arrives with the session: it is left at once.
arrive-login :
    (b : Bool) (pathname : String)
    → contains public_routes pathname ≡ false
    → turn arrives (visit true b pathname (some "/login"))
      ≡ visit true true "/login" (some (destination true pathname))
unfolding turn render redirect redirects
arrive-login true pathname h = rw (not_login pathname h, home_protected pathname h) refl
arrive-login false pathname h = rw (home_protected pathname h) refl

login_left :
    (pathname : String)
    → contains public_routes pathname ≡ false
    → ("/login" == destination true pathname) ≡ false
login_left pathname h = rw (home_protected pathname h) refl

turn-Stage :
    (pathname : String) (t : Turn) (v : Visit) → Stage pathname v → Stage pathname (turn t v)
turn-Stage pathname rerenders _ (settled b) =
    rw (rerender-same b (destination b pathname) none) (settled b)
turn-Stage pathname arrives _ (settled b) = unfold turn in settled b
turn-Stage pathname rerenders _ (leaving b from n) =
    rw (rerender-same b from (some (destination b pathname))) (leaving b from n)
turn-Stage pathname arrives _ (leaving b from n) = rw (arrive-leaving b from pathname n) (settled b)
turn-Stage pathname rerenders _ (unseen c) = (rerender-unseen pathname c).0
turn-Stage pathname arrives _ (unseen c) = unfold turn in unseen c
turn-Stage pathname rerenders _ (unseen_login c) =
    rw (rerender-unseen_login pathname c) (seen_login c)
turn-Stage pathname arrives _ (unseen_login c) =
    rw (arrive-login false pathname c) (leaving true "/login" (login_left pathname c))
turn-Stage pathname rerenders _ (seen_login c) =
    rw (rerender-same true pathname (some "/login")) (seen_login c)
turn-Stage pathname arrives _ (seen_login c) =
    rw (arrive-login true pathname c) (leaving true "/login" (login_left pathname c))

render-session : (pathname : String) (v : Visit) → (render pathname v).session ≡ v.session
unfolding render redirect
render-session pathname v = ground arith

arrive-session :
    (b a : Bool) (pathname : String) (pushed : Option String)
    → (turn arrives (visit b a pathname pushed)).session ≡ b
unfolding turn
arrive-session b a pathname none = refl
arrive-session b a pathname (some target) = render-session target (visit b a pathname none)

turn-session : (t : Turn) (v : Visit) → (turn t v).session ≡ v.session
unfolding turn
turn-session rerenders v = render-session v.pathname v
turn-session arrives v =
    unfold turn in arrive-session v.session v.is_authenticated v.pathname v.pushed

-- After any turns the user is still at one of the stages, with the same session.
turns-Stage :
    (pathname : String) (ts : List Turn) (v : Visit)
    → Stage pathname v
    → Stage pathname (turns ts v) × ((turns ts v).session ≡ v.session)
turns-Stage pathname [] v h = (h, refl)
turns-Stage pathname (t ∷ ts) v h =
    let (later, kept) = turns-Stage pathname ts (turn t v) (turn-Stage pathname t v h) in
    (later, cc (kept, turn-session t v))

-- Three more turns are enough.
Stage-settles :
    (pathname : String) (v : Visit)
    → Stage pathname v
    → turn arrives (turn arrives (turn rerenders v))
      ≡ visit v.session v.session (destination v.session pathname) none
Stage-settles pathname _ (settled b) =
    rw (rerender-same b (destination b pathname) none) (unfold turn in refl)
Stage-settles pathname _ (leaving b from n) =
    rw (rerender-same b from (some (destination b pathname)), arrive-leaving b from pathname n)
      (unfold turn in refl)
Stage-settles pathname _ (unseen c) = (rerender-unseen pathname c).1
Stage-settles pathname _ (unseen_login c) =
    rw
      (
        rerender-unseen_login pathname c,
        arrive-login true pathname c,
        arrive-leaving true "/login" pathname (login_left pathname c),
      )
      refl
Stage-settles pathname _ (seen_login c) =
    rw
      (
        rerender-same true pathname (some "/login"),
        arrive-login true pathname c,
        arrive-leaving true "/login" pathname (login_left pathname c),
      )
      refl

first-Stage :
    (b : Bool) (pathname : String) → Stage pathname (redirect (visit b false pathname none))
unfolding redirect redirects
first-Stage true pathname = elim (Bool-cases (contains public_routes pathname)) [
  | inl h ↦ rw h (unseen h)
  | inr h ↦ rw h (unseen_login h)
]
first-Stage false pathname = elim (Bool-cases (contains public_routes pathname)) [
  | inl h ↦
      let e : destination false pathname ≡ pathname = rw h refl in
      rw h (subst (λ q. Stage pathname (visit false false q none)) e (settled false))
  | inr h ↦
      let e : destination false pathname ≡ "/login" = rw h refl in
      let n : (pathname == destination false pathname) ≡ false = rw e (not_login pathname h) in
      rw h (
        subst (λ q. Stage pathname (visit false false pathname (some q))) e
          (leaving false pathname n))
]

-- A page is loaded, checkAuth returns, and only the provider sends the user on. Then, in whichever order the
-- provider is rendered again and the navigations arrive, one more render and two more arrivals lead to the end:
-- with a session the home page if that was opened, and else the dashboard, whichever page it was; without one
-- the page itself if it is public, and else the login page. No further address follows.
pub redirects_settle :
    {W : Type 0} (s after : Store W) (pathname : String) (ts : List Turn)
    → s.auth.is_authenticated ≡ false
    → check_auth s ≡ returned after
    → let b = after.auth.is_authenticated in
      (redirects b (destination b pathname) ≡ [])
      × ((v : Visit) × (mount s pathname ≡ returned (after, v))
          × (turns (rerenders ∷ arrives ∷ arrives ∷ []) (turns ts v) ≡ record {
            session = b;
            is_authenticated = b;
            pathname = destination b pathname;
            pushed = none;
          }))
unfolding mount
redirects_settle s after pathname ts fresh c =
    let b = after.auth.is_authenticated in
    let v = redirect (visit b false pathname none) in
    let (stage, kept) = turns-Stage pathname ts v (first-Stage b pathname) in
    (
      redirects-destination b pathname,
      (v, rw (c, fresh) refl, rw (Stage-settles pathname (turns ts v) stage, kept) refl),
    )
