-- ===== src/Public/Outcomes.antt =====
-- How a new password and an invitation end.
use harmony_saas_multitenanc.Base.{
  ◌≤◌, String, Bool, true, false, not, Option, none, some, ◌≡◌, ◌⊎◌, refl, arith, is_some, ◌==◌,
  inl, inr,
}
use harmony_saas_multitenanc.Base.Characters.{codes, units_of}
use harmony_saas_multitenanc.Browser.{Browser, truthy}
use harmony_saas_multitenanc.Client.{Reply, success, failure, client, fresh}
use harmony_saas_multitenanc.Public.{
  PublicPage, PublicRun, InviteForm, AcceptResponse, invitation, unless_error, Accounts, token_text,
  password_error, settled_page, refused_page, without_error, after_call, after_invite, submit_reset,
  submit_invite,
}

-- A page that has ended: it is not loading, and shows exactly one of success and an error.
pub record IsSettled (page : PublicPage) : Type 0 where
  pub idle : page.is_loading ≡ false
  pub either : page.success ≡ not (is_some page.error)

-- A password that may be sent.
pub record IsAllowed (password confirm : String) (token : Option String) : Type 0 where
  pub repeated : (password == confirm) ≡ true
  pub long : 8 ≤ units_of (codes password)
  pub has_token : is_some (truthy token) ≡ true

allowed :
    (invalid password confirm : String) (token : Option String)
    → password_error invalid password confirm token ≡ none
    → IsAllowed password confirm token
unfolding password_error
allowed invalid password confirm token h = record {
  repeated = ground arith;
  long = ground arith;
  has_token = ground arith;
}

refused_by :
    (invalid password confirm message : String) (token : Option String)
    → password_error invalid password confirm token ≡ some message
    → ¬ (IsAllowed password confirm token)
unfolding password_error
refused_by invalid password confirm message token h a =
    ground (arith, a.repeated, a.long, a.has_token)

abbrev pub accepted : {A : Type 0} → Reply A → Bool
accepted (success a) = true
accepted (failure f) = false

-- The end of a submit: it was allowed, the call was made, with its effects on the browser and the server, and the
-- page says whether the server accepted it; or it was not allowed, and nothing was called.
abbrev pub Submitted :
    {A W : Type 0} → Type 0 → Reply A → Browser × W → PublicRun W → Browser → W → Type 0
Submitted allowed' reply effects end b w =
    IsSettled end.0
    × ((allowed' × (end.0.success ≡ accepted reply) × (end.1 ≡ effects.0) × (end.2 ≡ effects.1))
        ⊎ ((¬ allowed') × (end.0.success ≡ false) × (end.1 ≡ b) × (end.2 ≡ w)))

settled_page-IsSettled :
    {A : Type 0} (fallback : String) (leaves' : Bool) (reply : Reply A) (page : PublicPage)
    → page.success ≡ false
    → let p = settled_page fallback leaves' reply (without_error page) in
      IsSettled p × (p.success ≡ accepted reply)
unfolding settled_page
settled_page-IsSettled fallback leaves' (success a) page h =
    (record { idle = refl; either = refl }, refl)
settled_page-IsSettled fallback leaves' (failure f) page h = (record { idle = refl; either = h }, h)

refused_page-IsSettled :
    (message : String) (page : PublicPage)
    → page.is_loading ≡ false
    → page.success ≡ false
    → IsSettled (refused_page message page)
unfolding refused_page
refused_page-IsSettled message page i h = record { idle = i; either = h }

unless_error-Submitted :
    {A W : Type 0} (allowed' : Type 0) (reply : Reply A) (effects : Browser × W) (e : Option String)
    (page : PublicPage) (b : Browser) (w : W) (run : PublicRun W)
    → page.is_loading ≡ false
    → page.success ≡ false
    → (e ≡ none → allowed')
    → ((message : String) → e ≡ some message → ¬ allowed')
    → IsSettled run.0 × (run.0.success ≡ accepted reply)
    → (run.1 ≡ effects.0) × (run.2 ≡ effects.1)
    → Submitted allowed' reply effects (unless_error e page b w run) b w
unfolding unless_error
unless_error-Submitted allowed' reply effects (some message) page b w run i h a n r k = (
  refused_page-IsSettled message page i h,
  inr (n message refl, unfold refused_page in h, refl, refl),
)
unless_error-Submitted allowed' reply effects none page b w run i h a n (settled, says) k =
    (settled, inl (a refl, says, k.0, k.1))

after_invite-IsSettled :
    {W : Type 0} (page : PublicPage) (run : Reply AcceptResponse × Browser × W)
    → page.success ≡ false
    → let p = (after_invite (without_error page) run).0 in
      IsSettled p × (p.success ≡ accepted run.0)
unfolding after_invite
after_invite-IsSettled page (success r, b, w) h =
    settled_page-IsSettled {A = AcceptResponse}
      "Failed to accept invitation. The link may have expired." true (success r) page h
after_invite-IsSettled page (failure f, b, w) h =
    settled_page-IsSettled {A = AcceptResponse}
      "Failed to accept invitation. The link may have expired." true (failure f) page h

module _ {W : Type 0} (accounts : Accounts W) (token : Option String) (page : PublicPage)
    (b : Browser) (w : W) (idle : page.is_loading ≡ false) (fresh_page : page.success ≡ false) where
  -- A new password is sent exactly if it was written twice, has eight code units and the link has a token:
  -- then the call is made, with its effects on the browser and the server, and the page shows success exactly
  -- if the server accepts it, and else an error; otherwise nothing is called, and the page shows an error.
  pub submit_reset_outcome :
      (password confirm : String)
      → let run =
          client
            (accounts.reset_password (record { token = token_text token; new_password = password }))
            accounts.refresh
            fresh
            b
            w in
        Submitted
          (IsAllowed password confirm token)
          run.0
          (run.1, run.2)
          (submit_reset accounts token password confirm page b w)
          b
          w
  unfolding submit_reset after_call
  submit_reset_outcome password confirm =
      let run =
        client
          (accounts.reset_password (record { token = token_text token; new_password = password }))
          accounts.refresh fresh b w in
      unless_error-Submitted (IsAllowed password confirm token) run.0 (run.1, run.2)
        (password_error "Invalid reset token" password confirm token) page b w
        (after_call "Failed to reset password. The link may have expired." true (without_error page)
          run)
        idle fresh_page (allowed "Invalid reset token" password confirm token)
        (λ message. refused_by "Invalid reset token" password confirm message token)
        (settled_page-IsSettled "Failed to reset password. The link may have expired." true run.0
          page fresh_page)
        (refl, refl)

  -- An invitation is accepted under the same conditions, and ends in the same ways; tokens in the response are
  -- stored.
  pub submit_invite_outcome :
      (form : InviteForm)
      → let run =
          client (accounts.accept_invite (invitation token form)) accounts.refresh fresh b w in
        Submitted
          (IsAllowed form.password form.confirm_password token)
          run.0
          ((after_invite (without_error page) run).1, (after_invite (without_error page) run).2)
          (submit_invite accounts token form page b w)
          b
          w
  unfolding submit_invite
  submit_invite_outcome form =
      let run =
        client (accounts.accept_invite (invitation token form)) accounts.refresh fresh b w in
      unless_error-Submitted (IsAllowed form.password form.confirm_password token) run.0
        ((after_invite (without_error page) run).1, (after_invite (without_error page) run).2)
        (password_error "Invalid invitation token" form.password form.confirm_password token) page b
        w (after_invite (without_error page) run) idle fresh_page
        (allowed "Invalid invitation token" form.password form.confirm_password token)
        (λ message.
          refused_by "Invalid invitation token" form.password form.confirm_password message token)
        (after_invite-IsSettled page run fresh_page) (refl, refl)
