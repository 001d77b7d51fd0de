-- ===== src/Upgrade/Reachable.antt =====
-- frontend/src/app/(dashboard)/upgrade/page.tsx: the pages that the user can reach, whatever the server answers and
-- when.
use harmony_saas_multitenanc.Base.{
  ℕ, suc, ◌<◌, ◌≤◌, String, Bool, true, false, ◌≡◌, refl, Option, none, some, List, arith, ◌||◌,
  is_some,
}
use harmony_saas_multitenanc.Payment.{UpgradeRequest, PublicTier, PublicPaymentMethod}
use harmony_saas_multitenanc.Upgrade.{
  Step, UpgradePage, is_tier, first_render, can_proceed, can_proceed_at, start_edit_mode,
  edit_request, cancel_edit_mode, reset_wizard, active_request,
}
use harmony_saas_multitenanc.Upgrade.Controls.{
  Event, enabled, handle, next_step, prev_step, step_after, step_before, settle_create,
  settle_update, settle_cancel, current_step_index,
}

pub data Reach (current : String) : UpgradePage → Type 0 where
  start :
      (rs : Option (List UpgradeRequest)) (ts : Option (List PublicTier))
      (ms : Option (List PublicPaymentMethod))
      → Reach current (first_render rs ts ms)
  after :
      {p : UpgradePage} (e : Event)
      → Reach current p
      → enabled current e p ≡ true
      → Reach current (handle e p)

-- A tier is selected, or is still to be.
abbrev pub HasTier : UpgradePage → Type 0
HasTier p = (is_tier p.step || is_some p.selected_tier) ≡ true

next-HasTier :
    (s : Step) (p : UpgradePage)
    → can_proceed_at s p ≡ true
    → (is_tier s || is_some p.selected_tier) ≡ true
    → (is_tier (step_after s) || is_some p.selected_tier) ≡ true
unfolding can_proceed_at step_after
next-HasTier Step.tier p c h = c
next-HasTier Step.billing p c h = h
next-HasTier Step.payment p c h = h
next-HasTier Step.confirm p c h = h

prev-HasTier :
    (s : Step) (b : Bool) → (is_tier s || b) ≡ true → (is_tier (step_before s) || b) ≡ true
unfolding step_before
prev-HasTier Step.tier b h = refl
prev-HasTier Step.billing b h = refl
prev-HasTier Step.payment b h = h
prev-HasTier Step.confirm b h = h

edit-HasTier :
    (r : Option UpgradeRequest) (p : UpgradePage) → HasTier p → HasTier (edit_request r p)
unfolding edit_request
edit-HasTier none p h = h
edit-HasTier (some r) p h = refl

handle-HasTier :
    (current : String) (e : Event) (p : UpgradePage)
    → enabled current e p ≡ true
    → HasTier p
    → HasTier (handle e p)
unfolding handle enabled next_step prev_step start_edit_mode settle_create settle_update
    settle_cancel cancel_edit_mode reset_wizard can_proceed
handle-HasTier c (Event.click_tier t) p g h = ground arith
handle-HasTier c (Event.click_period b) p g h = h
handle-HasTier c (Event.click_method m) p g h = h
handle-HasTier c Event.click_next p g h = next-HasTier p.step p (ground arith) h
handle-HasTier c Event.click_back p g h = prev-HasTier p.step (is_some p.selected_tier) h
handle-HasTier c Event.click_edit p g h = edit-HasTier (active_request p) p h
handle-HasTier c Event.click_cancel_edit p g h = refl
handle-HasTier c Event.click_cancel_request p g h = h
handle-HasTier c Event.keep_request p g h = h
handle-HasTier c (Event.preview_arrives q) p g h = h
handle-HasTier c (Event.create_ends true) p g h = refl
handle-HasTier c (Event.create_ends false) p g h = h
handle-HasTier c (Event.update_ends true) p g h = refl
handle-HasTier c (Event.update_ends false) p g h = h
handle-HasTier c (Event.cancel_ends true) p g h = h
handle-HasTier c (Event.cancel_ends false) p g h = h
handle-HasTier c (Event.requests_arrive rs) p g h = h
handle-HasTier c (Event.tiers_arrive ts) p g h = h
handle-HasTier c (Event.methods_arrive ms) p g h = h

-- On every page that can be reached a tier is selected, unless the step is the one that selects it.
pub Reach-HasTier : (current : String) (p : UpgradePage) → Reach current p → HasTier p
Reach-HasTier c p (start rs ts ms) = unfold first_render in refl
Reach-HasTier c _ (after {p} e r g) = handle-HasTier c e p g (Reach-HasTier c p r)

index-next : (s : Step) → current_step_index (step_after s) ≤ suc (current_step_index s)
unfolding current_step_index step_after
index-next Step.tier = omega arith
index-next Step.billing = omega arith
index-next Step.payment = omega arith
index-next Step.confirm = omega arith

index-prev : (s : Step) → current_step_index (step_before s) ≤ current_step_index s
unfolding current_step_index step_before
index-prev Step.tier = omega arith
index-prev Step.billing = omega arith
index-prev Step.payment = omega arith
index-prev Step.confirm = omega arith

index-edit :
    (r : Option UpgradeRequest) (p : UpgradePage)
    → current_step_index (edit_request r p).step ≤ current_step_index p.step
unfolding edit_request current_step_index
index-edit none p = omega arith
index-edit (some r) p = omega arith

no_gain : {A : Type 0} {m n : ℕ} → m ≤ n → n < m → A
no_gain h k = absurd (omega arith)

-- The wizard goes on by at most one step at a time, and only by a click on the button of a page
-- whose step is complete.
pub no_step_skipped :
    (current : String) (e : Event) (p : UpgradePage)
    → enabled current e p ≡ true
    → (current_step_index (handle e p).step ≤ suc (current_step_index p.step))
      × (current_step_index p.step < current_step_index (handle e p).step
          → (e ≡ Event.click_next) × (can_proceed p ≡ true))
unfolding handle enabled next_step prev_step start_edit_mode settle_create settle_update
    settle_cancel cancel_edit_mode reset_wizard
no_step_skipped c (Event.click_tier t) p g = (omega arith, λ h. no_gain (omega arith) h)
no_step_skipped c (Event.click_period b) p g = (omega arith, λ h. no_gain (omega arith) h)
no_step_skipped c (Event.click_method m) p g = (omega arith, λ h. no_gain (omega arith) h)
no_step_skipped c Event.click_next p g = (index-next p.step, λ h. (refl, ground arith))
no_step_skipped c Event.click_back p g =
    (omega (arith, index-prev p.step), no_gain (index-prev p.step))
no_step_skipped c Event.click_edit p g =
    (omega (arith, index-edit (active_request p) p), no_gain (index-edit (active_request p) p))
no_step_skipped c Event.click_cancel_edit p g =
    unfold current_step_index in (omega arith, λ h. no_gain (omega arith) h)
no_step_skipped c (Event.create_ends true) p g =
    unfold current_step_index in (omega arith, λ h. no_gain (omega arith) h)
no_step_skipped c (Event.update_ends true) p g =
    unfold current_step_index in (omega arith, λ h. no_gain (omega arith) h)
no_step_skipped c Event.click_cancel_request p g = (omega arith, λ h. no_gain (omega arith) h)
no_step_skipped c Event.keep_request p g = (omega arith, λ h. no_gain (omega arith) h)
no_step_skipped c (Event.preview_arrives q) p g = (omega arith, λ h. no_gain (omega arith) h)
no_step_skipped c (Event.create_ends false) p g = (omega arith, λ h. no_gain (omega arith) h)
no_step_skipped c (Event.update_ends false) p g = (omega arith, λ h. no_gain (omega arith) h)
no_step_skipped c (Event.cancel_ends true) p g = (omega arith, λ h. no_gain (omega arith) h)
no_step_skipped c (Event.cancel_ends false) p g = (omega arith, λ h. no_gain (omega arith) h)
no_step_skipped c (Event.requests_arrive rs) p g = (omega arith, λ h. no_gain (omega arith) h)
no_step_skipped c (Event.tiers_arrive ts) p g = (omega arith, λ h. no_gain (omega arith) h)
no_step_skipped c (Event.methods_arrive ms) p g = (omega arith, λ h. no_gain (omega arith) h)
