-- ===== src/Upgrade/Reload.antt =====
-- frontend/src/app/(dashboard)/upgrade/page.tsx: the edit of an active request after the page was loaded anew.
use harmony_saas_multitenanc.Base.{
  Bool, true, false, ◌≡◌, refl, Option, none, some, List, [], ◌∷◌, arith, all,
}
use harmony_saas_multitenanc.Payment.{PublicTier, UpgradeRequest}
use harmony_saas_multitenanc.Upgrade.{
  UpgradePage, active_request, tier_of, method_of, start_edit_mode, edit_request, first_render,
  methods_enabled, found_or,
}
use harmony_saas_multitenanc.Upgrade.Controls.{Event, handle}

-- An answer of the server that changes neither the step nor the mode.
abbrev pub is_answer : Event → Bool
is_answer (Event.preview_arrives q) = true
is_answer (Event.requests_arrive rs) = true
is_answer (Event.tiers_arrive ts) = true
is_answer (Event.methods_arrive ms) = true
is_answer _ = false

-- The methods are asked for only if their query is enabled.
abbrev pub may_arrive : Event → UpgradePage → Bool
may_arrive (Event.preview_arrives q) p = true
may_arrive (Event.requests_arrive rs) p = true
may_arrive (Event.tiers_arrive ts) p = true
may_arrive (Event.methods_arrive ms) p = methods_enabled p
may_arrive _ p = false

-- A page that was loaded anew, without the methods, after answers of the server.
pub data Reloaded : UpgradePage → Type 0 where
  opened :
      (requests : Option (List UpgradeRequest)) (tiers : Option (List PublicTier))
      → Reloaded (first_render requests tiers none)
  answered :
      {p : UpgradePage} (e : Event) → Reloaded p → may_arrive e p ≡ true → Reloaded (handle e p)

abbrev IsWaiting : UpgradePage → Type 0
IsWaiting p =
    (methods_enabled p ≡ false)
    × (p.payment_methods ≡ none)
    × (p.selected_payment_method ≡ none)
    × (p.selected_tier ≡ none)

answer-IsWaiting :
    (e : Event) (p : UpgradePage) → may_arrive e p ≡ true → IsWaiting p → IsWaiting (handle e p)
unfolding handle methods_enabled
answer-IsWaiting (Event.preview_arrives q) p h w = w
answer-IsWaiting (Event.requests_arrive rs) p h w = w
answer-IsWaiting (Event.tiers_arrive ts) p h w = w
answer-IsWaiting (Event.methods_arrive ms) p h w = absurd (cc (h, w.0))
answer-IsWaiting (Event.click_tier t) p h w = absurd (cc h)
answer-IsWaiting (Event.click_period b) p h w = absurd (cc h)
answer-IsWaiting (Event.click_method m) p h w = absurd (cc h)
answer-IsWaiting Event.click_next p h w = absurd (cc h)
answer-IsWaiting Event.click_back p h w = absurd (cc h)
answer-IsWaiting Event.click_edit p h w = absurd (cc h)
answer-IsWaiting Event.click_cancel_edit p h w = absurd (cc h)
answer-IsWaiting Event.click_cancel_request p h w = absurd (cc h)
answer-IsWaiting Event.keep_request p h w = absurd (cc h)
answer-IsWaiting (Event.create_ends b) p h w = absurd (cc h)
answer-IsWaiting (Event.update_ends b) p h w = absurd (cc h)
answer-IsWaiting (Event.cancel_ends b) p h w = absurd (cc h)

Reloaded-IsWaiting : {p : UpgradePage} → Reloaded p → IsWaiting p
unfolding first_render methods_enabled
Reloaded-IsWaiting (opened requests tiers) = (refl, refl, refl, refl)
Reloaded-IsWaiting (answered {p} e r h) = answer-IsWaiting e p h (Reloaded-IsWaiting r)

abbrev pub handle_all : List Event → UpgradePage → UpgradePage
handle_all [] p = p
handle_all (e ∷ es) p = handle_all es (handle e p)

answer-keeps :
    (e : Event) (p : UpgradePage)
    → is_answer e ≡ true
    → (handle e p).selected_payment_method ≡ p.selected_payment_method
unfolding handle
answer-keeps (Event.preview_arrives q) p h = refl
answer-keeps (Event.requests_arrive rs) p h = refl
answer-keeps (Event.tiers_arrive ts) p h = refl
answer-keeps (Event.methods_arrive ms) p h = refl
answer-keeps (Event.click_tier t) p h = absurd (cc h)
answer-keeps (Event.click_period b) p h = absurd (cc h)
answer-keeps (Event.click_method m) p h = absurd (cc h)
answer-keeps Event.click_next p h = absurd (cc h)
answer-keeps Event.click_back p h = absurd (cc h)
answer-keeps Event.click_edit p h = absurd (cc h)
answer-keeps Event.click_cancel_edit p h = absurd (cc h)
answer-keeps Event.click_cancel_request p h = absurd (cc h)
answer-keeps Event.keep_request p h = absurd (cc h)
answer-keeps (Event.create_ends b) p h = absurd (cc h)
answer-keeps (Event.update_ends b) p h = absurd (cc h)
answer-keeps (Event.cancel_ends b) p h = absurd (cc h)

answers-keep :
    (es : List Event) (p : UpgradePage)
    → all is_answer es ≡ true
    → (handle_all es p).selected_payment_method ≡ p.selected_payment_method
answers-keep [] p h = refl
answers-keep (e ∷ es) p h =
    let here : is_answer e ≡ true = ground arith in
    let later : all is_answer es ≡ true = ground arith in
    cc (answers-keep es (handle e p) later, answer-keeps e p here)

found_or-none : (o : Option PublicTier) → found_or o none ≡ o
found_or-none none = refl
found_or-none (some t) = refl

no_method :
    (r : UpgradeRequest) (p : UpgradePage)
    → p.payment_methods ≡ none
    → p.selected_payment_method ≡ none
    → (edit_request (some r) p).selected_payment_method ≡ none
unfolding edit_request method_of
no_method r p methods method = rw (methods, method) refl

-- On a page that was loaded anew, whatever the server has answered to the queries that the page makes, the edit
-- of the active request selects its period, its tier if that is loaded, and no payment method, even if the
-- request has one: that list is asked for only then, and whatever arrives afterwards, it selects none.
pub edit_after_reload :
    (p : UpgradePage) (r : UpgradeRequest) (es : List Event)
    → Reloaded p
    → active_request p ≡ some r
    → all is_answer es ≡ true
    → let q = handle Event.click_edit p in
      (methods_enabled p ≡ false)
      × (methods_enabled q ≡ true)
      × (q.selected_tier ≡ tier_of r p)
      × (q.billing_period ≡ r.billing_period)
      × ((handle_all es q).selected_payment_method ≡ none)
unfolding handle start_edit_mode methods_enabled edit_request
edit_after_reload p r es l a h =
    let (off, methods, method, tier) = Reloaded-IsWaiting l in
    let kept = answers-keep es (edit_request (some r) p) h in
    rw a (
      off,
      refl,
      cc (found_or-none (tier_of r p), tier),
      refl,
      cc (kept, no_method r p methods method),
    )
