-- ===== src/AuditLogs/Pages.antt =====
-- frontend/src/app/(auth)/admin/logs/AuditLogsClient.tsx: the pages that the user can reach, and the logs that
-- are on them.
use harmony_saas_multitenanc.Base.{
  ℕ, zero, suc, ◌+◌, ◌-◌, ◌*◌, ◌/◌, ◌≤◌, ◌<◌, Bool, true, false, ◌&&◌, ◌||◌, ◌≡◌, refl, ◌∙◌, none,
  some, arith, is_some, not, ap,
}
use harmony_saas_multitenanc.AuditLogs.{
  AuditPage, AuditEvent, AuditLogListResponse, AuditLogParams, first_view, enabled, handle,
  params_of, total_pages, total_of, shows_pages, page_size, settle_clear, settle_archive,
}

-- What the user and the server can make of the page, as long as the development mode does not change.
pub data Reach (dev_mode : Bool) : AuditPage → Type 0 where
  start : Reach dev_mode first_view
  after :
      {p : AuditPage} (e : AuditEvent)
      → Reach dev_mode p
      → enabled dev_mode e p ≡ true
      → Reach dev_mode (handle e p)

pub record IsPaged (dev_mode : Bool) (p : AuditPage) : Type 0 where
  pub from_one : 1 ≤ p.page
  pub one_result : (is_some p.clear_result && is_some p.archive_result) ≡ false
  pub clears :
      (dev_mode || not (p.show_clear_dialog || p.clearing || is_some p.clear_result)) ≡ true

handle-IsPaged :
    (dev_mode : Bool) (e : AuditEvent) (p : AuditPage)
    → enabled dev_mode e p ≡ true
    → IsPaged dev_mode p
    → IsPaged dev_mode (handle e p)
unfolding handle enabled shows_pages settle_clear settle_archive
handle-IsPaged d (AuditEvent.type_search s) p g h = ground arith
handle-IsPaged d (AuditEvent.choose_action s) p g h = ground arith
handle-IsPaged d (AuditEvent.choose_resource s) p g h = ground arith
handle-IsPaged d (AuditEvent.choose_status s) p g h = ground arith
handle-IsPaged d AuditEvent.clear_filters p g h = ground arith
handle-IsPaged d AuditEvent.previous p g h = ground arith
handle-IsPaged d AuditEvent.next p g h = ground arith
handle-IsPaged d (AuditEvent.toggle_row s) p g h = ground arith
handle-IsPaged d (AuditEvent.show_clear b) p g h = ground arith
handle-IsPaged d (AuditEvent.show_archive b) p g h = ground arith
handle-IsPaged d AuditEvent.toggle_archives p g h = ground arith
handle-IsPaged d AuditEvent.confirm_clear p g h = ground arith
handle-IsPaged d AuditEvent.confirm_archive p g h = ground arith
handle-IsPaged d (AuditEvent.choose_days n) p g h = ground arith
handle-IsPaged d (AuditEvent.cleared_logs none) p g h = ground arith
handle-IsPaged d (AuditEvent.cleared_logs (some n)) p g h = ground arith
handle-IsPaged d (AuditEvent.archived_logs none) p g h = ground arith
handle-IsPaged d (AuditEvent.archived_logs (some r)) p g h = ground arith
handle-IsPaged d (AuditEvent.arrives r) p g h = ground arith

-- On every page of the logs that can be reached, whatever the server answers and when, the number of the page
-- is 1 or more, at most one of the results of a deletion and of an archiving is shown, and without the
-- development mode no deletion is offered, under way or done.
pub Reach-IsPaged : {dev_mode : Bool} {p : AuditPage} → Reach dev_mode p → IsPaged dev_mode p
Reach-IsPaged start = record { from_one = omega arith; one_result = refl; clears = ground arith }
Reach-IsPaged {dev_mode} (after {p} e r g) = handle-IsPaged dev_mode e p g (Reach-IsPaged r)

-- The answer arrives, and the user turns to the next page, so many times.
unfoldable pub turn : AuditLogListResponse → ℕ → AuditPage → AuditPage
turn r zero p = p
turn r (suc k) p = handle AuditEvent.next (handle (AuditEvent.arrives r) (turn r k p))

abbrev pages_of : ℕ → ℕ
pages_of total = (total + 49) / 50

turn-page :
    (r : AuditLogListResponse) (k : ℕ) (p : AuditPage)
    → p.page ≡ 1
    → k < pages_of r.total
    → (turn r k p).page ≡ suc k
unfolding turn handle total_pages total_of
turn-page r zero p one few = one
turn-page r (suc k) p one few = let again = turn-page r k p one (omega arith) in ground arith

turn-Reach :
    {dev_mode : Bool} (r : AuditLogListResponse) (k : ℕ) (p : AuditPage)
    → Reach dev_mode p
    → p.page ≡ 1
    → k < pages_of r.total
    → Reach dev_mode (turn r k p)
unfolding turn enabled shows_pages total_pages total_of handle
turn-Reach r zero p reach one few = reach
turn-Reach {dev_mode} r (suc k) p reach one few =
    let again = turn-page r k p one (omega arith) in
    after AuditEvent.next
      (after (AuditEvent.arrives r) (turn-Reach r k p reach one (omega arith)) refl) (ground arith)

-- The filters stay: at the same page the same is asked for.
turn-filters :
    (r : AuditLogListResponse) (k : ℕ) (p : AuditPage)
    → params_of (record (turn r k p) { page = 1 }) ≡ params_of (record p { page = 1 })
unfolding turn handle params_of
turn-filters r zero p = refl
turn-filters r (suc k) p = turn-filters r k p

turn-params :
    (r : AuditLogListResponse) (k : ℕ) (p : AuditPage)
    → p.page ≡ 1
    → k < pages_of r.total
    → params_of (turn r k p) ≡ record (params_of p) { skip = some (k * page_size) }
unfolding params_of
turn-params r k p one few =
    let at : (turn r k p).page - 1 ≡ k = by_page (turn-page r k p one few) in
    let same = turn-filters r k p in
    ap (λ (q : AuditLogParams). record q { skip = some (((turn r k p).page - 1) * page_size) }) same
    ∙ ap (λ (n : ℕ). record (params_of p) { skip = some (n * page_size) }) at
  where
    by_page : (turn r k p).page ≡ suc k → (turn r k p).page - 1 ≡ k
    by_page e = omega arith

-- Every log of the answer is on a page that the user reaches from the first one by the button of the next
-- page, if the answers agree: that page asks for the same filters, from a log that is at most this one, and
-- the fifty logs from there on have it.
pub every_log_reached :
    {dev_mode : Bool} (r : AuditLogListResponse) (i : ℕ) (p : AuditPage)
    → Reach dev_mode p
    → p.page ≡ 1
    → i < r.total
    → let q = turn r (i / 50) p in
      let from = (i / 50) * page_size in
      Reach dev_mode q
      × (params_of q ≡ record (params_of p) { skip = some from })
      × (from ≤ i)
      × (i < from + page_size)
every_log_reached r i p reach one small =
    let few : i / 50 < pages_of r.total = omega arith in
    (
      turn-Reach r (i / 50) p reach one few,
      turn-params r (i / 50) p one few,
      omega arith,
      omega arith,
    )
