-- ===== src/Public.antt =====
-- The pages under frontend/src/app/(public) that work without a session: a forgotten password, its reset, the
-- verification of an address and the acceptance of an invitation. Their one call goes through the client;
-- they run in a browser, and the redirect to the login page after three seconds is `leaves`.
pub mod Outcomes
pub mod Mixed
use Prim.Native.String
use harmony_saas_multitenanc.Base.{
  ℕ, String, Bool, true, false, not, ◌&&◌, ◌||◌, Option, none, some, List, [], ◌∷◌, length, any,
  ltb, leb, nat_eq, ◌==◌, if◌then◌else◌,
}
use harmony_saas_multitenanc.Base.Characters.{codes, units_of, is_digit}
use harmony_saas_multitenanc.Browser.{Browser, truthy}
use harmony_saas_multitenanc.Client.{
  Config, fresh, Reply, success, failure, Failure, Response, ErrorBody, Detail, absent, text,
  messages, TokenPair, set_access_token, set_refresh_token, client,
}

-- What an alert shows: a text, or the entries of a list that the server sent in place of one.
pub data Shown : Type 0 where
  line : String → Shown
  entries : List String → Shown

-- `response?.data?.detail || fallback`; a list counts, even an empty one.
unfoldable pub detail_or : String → Failure → Shown
detail_or fallback f = elim f.response [
  | none ↦ line fallback
  | some r ↦ elim r.body [
    | none ↦ line fallback
    | some body ↦ elim body.detail [
      | absent ↦ line fallback
      | text s ↦ line (if s == "" then fallback else s)
      | messages ms ↦ entries ms
    ]
  ]
]

-- What the four pages show.
pub record PublicPage : Type 0 where
  pub is_loading : Bool
  pub error : Option Shown
  pub success : Bool
  pub leaves : Bool

unfoldable pub refused_page : String → PublicPage → PublicPage
refused_page message page = record page { error = some (line message) }

-- `setError(null)`
abbrev pub without_error : PublicPage → PublicPage
without_error page = record page { error = none }

unfoldable pub settled_page : {A : Type 0} → String → Bool → Reply A → PublicPage → PublicPage
unfolding detail_or
settled_page fallback leaves' (success a) page = record page {
  is_loading = false;
  success = true;
  leaves = leaves';
}
settled_page fallback leaves' (failure f) page = record page {
  is_loading = false;
  error = some (detail_or fallback f);
}

pub record ResetRequest : Type 0 where
  pub token : String
  pub new_password : String

pub record AcceptRequest : Type 0 where
  pub token : String
  pub password : String
  pub first_name : Option String
  pub last_name : Option String

-- Of the response only the tokens are read.
pub record AcceptResponse : Type 0 where
  pub tokens : Option TokenPair

pub record InviteForm : Type 0 where
  pub password : String
  pub confirm_password : String
  pub first_name : String
  pub last_name : String

-- The calls of the server.
pub record Accounts (W : Type 0) : Type 0 where
  pub forgot_password : String → Config → W → Reply (Unit {0}) × W
  pub reset_password : ResetRequest → Config → W → Reply (Unit {0}) × W
  pub verify_email : String → Config → W → Reply (Unit {0}) × W
  pub accept_invite : AcceptRequest → Config → W → Reply AcceptResponse × W
  pub refresh : String → W → Reply TokenPair × W

-- The first reason not to send a new password; the length counts the code units of UTF-16.
unfoldable pub password_error : String → String → String → Option String → Option String
unfolding units_of
password_error invalid password confirm token =
    if not (password == confirm)
    then some "Passwords do not match"
    else if ltb (units_of (codes password)) 8
    then some "Password must be at least 8 characters long"
    else elim (truthy token) [ none ↦ some invalid | some t ↦ none ]

-- `value || undefined`
abbrev pub or_undefined : String → Option String
or_undefined s = if s == "" then none else some s

abbrev pub token_text : Option String → String
token_text none = ""
token_text (some t) = t

unfoldable pub invitation : Option String → InviteForm → AcceptRequest
invitation token form = record {
  token = token_text token;
  password = form.password;
  first_name = or_undefined form.first_name;
  last_name = or_undefined form.last_name;
}

-- The strength that is shown under a new password.
pub data Strength : Type 0 where
  unrated too_short weak strong : Strength

abbrev between : ℕ → ℕ → ℕ → Bool
between lo hi c = leb lo c && leb c hi

unfoldable pub password_strength : String → Strength
unfolding units_of
password_strength password =
    let cs = codes password in
    if nat_eq (units_of cs) 0
    then unrated
    else if ltb (units_of cs) 8
    then too_short
    else if not
        (any (between b'a' b'z') cs && any (between b'A' b'Z') cs && any (between b'0' b'9') cs)
    then weak
    else strong

abbrev pub PublicRun : Type 0 → Type 0
PublicRun W = PublicPage × Browser × W

-- The page after the reply to its call.
unfoldable pub after_call :
    {A W : Type 0} → String → Bool → PublicPage → Reply A × Browser × W → PublicRun W
unfolding settled_page
after_call fallback leaves' page (reply, b, w) = (settled_page fallback leaves' reply page, b, w)

-- Tokens in the response are stored, and nothing else.
unfoldable pub keep_tokens : Option TokenPair → Browser → Browser
keep_tokens none b = b
keep_tokens (some pair) b =
    set_refresh_token pair.refresh_token (set_access_token pair.access_token b)

unfoldable pub after_invite :
    {W : Type 0} → PublicPage → Reply AcceptResponse × Browser × W → PublicRun W
unfolding settled_page keep_tokens
after_invite page (success r, b, w) = (
  settled_page {A = AcceptResponse} "Failed to accept invitation. The link may have expired." true
      (success r) page,
  keep_tokens r.tokens b,
  w,
)
after_invite page (failure f, b, w) = (
  settled_page {A = AcceptResponse} "Failed to accept invitation. The link may have expired." true
      (failure f) page,
  b,
  w,
)

-- `setError(message); return`
unfoldable pub unless_error :
    {W : Type 0} → Option String → PublicPage → Browser → W → PublicRun W → PublicRun W
unfolding refused_page
unless_error (some message) page b w run = (refused_page message page, b, w)
unless_error none page b w run = run

module _ {W : Type 0} (accounts : Accounts W) where
  unfoldable pub submit_forgot : String → PublicPage → Browser → W → PublicRun W
  unfolding after_call
  submit_forgot email page b w =
      after_call "Failed to send reset email. Please try again." false (without_error page)
        (client (accounts.forgot_password email) accounts.refresh fresh b w)

  unfoldable pub submit_reset :
      Option String → String → String → PublicPage → Browser → W → PublicRun W
  unfolding after_call password_error unless_error
  submit_reset token password confirm page b w =
      unless_error (password_error "Invalid reset token" password confirm token) page b w (
        after_call "Failed to reset password. The link may have expired." true (without_error page)
          (client
            (accounts.reset_password (record { token = token_text token; new_password = password }))
            accounts.refresh fresh b w))

  -- It runs when the page is opened.
  unfoldable pub verify_email : Option String → PublicPage → Browser → W → PublicRun W
  unfolding after_call
  verify_email token page b w = elim (truthy token) [
    | none ↦ (
      record page {
        is_loading = false;
        error = some (line "Invalid or missing verification token");
      },
      b,
      w,
    )
    | some t ↦
        after_call "Failed to verify email. The link may have expired." true page
          (client (accounts.verify_email t) accounts.refresh fresh b w)
  ]

  unfoldable pub submit_invite : Option String → InviteForm → PublicPage → Browser → W → PublicRun W
  unfolding after_invite password_error unless_error invitation
  submit_invite token form page b w =
      unless_error
        (password_error "Invalid invitation token" form.password form.confirm_password token) page b
        w
        (after_invite (without_error page)
          (client (accounts.accept_invite (invitation token form)) accounts.refresh fresh b w))
