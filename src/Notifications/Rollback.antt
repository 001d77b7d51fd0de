-- ===== src/Notifications/Rollback.antt =====
-- frontend/src/hooks/use-notifications.ts: the count after the server refuses what was shown in advance.
use harmony_saas_multitenanc.Base.{ℕ, ◌-◌, ◌≡◌, refl, String, Option, none, some, List, length}
use harmony_saas_multitenanc.Notifications.{Cache, mark_read, mark_all_read, context_of, roll_back}

-- A mark of notifications as read that the server refuses leaves the count as it was, and so does a mark
-- of all where there was a count. But where two marks overlap and both are refused, in the order in which
-- they began, the count stays lower by the number of the first one's notifications.
pub roll_back_restores :
    (c : Cache) (first second : List String) (n : ℕ)
    → (roll_back (context_of c) (mark_read first c) ≡ c)
      × (c.unread_count ≡ some n
          → (roll_back (context_of c) (mark_all_read c) ≡ c)
            × (let c1 = mark_read first c in
                let c2 = mark_read second c1 in
                (roll_back (context_of c1) (roll_back (context_of c) c2)).unread_count
                ≡ some (n - length first)))
unfolding roll_back context_of mark_read mark_all_read
roll_back_restores c first second n = (restored c.unread_count, λ h. rw h (refl, refl))
  where
    restored :
        (o : Option ℕ)
        → roll_back o (mark_read first (record { unread_count = o })) ≡ record { unread_count = o }
    restored none = refl
    restored (some m) = refl
