-- ===== src/AuditLogs/Stranded.antt =====
-- frontend/src/app/(auth)/admin/logs/AuditLogsClient.tsx: the logs are deleted or archived while another page
-- than the first one is shown.
use harmony_saas_multitenanc.Base.{ℕ, ◌-◌, ◌*◌, ◌≤◌, Bool, false, ◌≡◌, refl, some, arith}
use harmony_saas_multitenanc.AuditLogs.{
  AuditPage, AuditEvent, AuditLogListResponse, ArchiveResult, enabled, handle, params_of,
  total_pages, total_of, shows_pages, page_size, has_active_filters, settle_clear, settle_archive,
}

-- The end of an accepted deletion or archiving.
pub data Emptied : AuditEvent → Type 0 where
  by_clear : (n : ℕ) → Emptied (AuditEvent.cleared_logs (some n))
  by_archive : (r : ArchiveResult) → Emptied (AuditEvent.archived_logs (some r))

-- After an accepted deletion or archiving on a page that is not the first one, without filters, and an answer
-- of at most fifty logs that are left, the page still asks for logs from the fiftieth on, all of them past
-- the end, and neither the buttons of the pages nor the one that clears the filters can be used.
pub deletion_strands_page :
    (dev_mode : Bool) (e : AuditEvent) (p : AuditPage) (r : AuditLogListResponse)
    → Emptied e
    → 2 ≤ p.page
    → has_active_filters p ≡ false
    → r.total ≤ page_size
    → let q = handle (AuditEvent.arrives r) (handle e p) in
      (q.page ≡ p.page)
      × (params_of q).skip ≡ some ((p.page - 1) * page_size)
      × (r.total ≤ (p.page - 1) * page_size)
      × (enabled dev_mode AuditEvent.previous q ≡ false)
      × (enabled dev_mode AuditEvent.next q ≡ false)
      × (enabled dev_mode AuditEvent.clear_filters q ≡ false)
unfolding handle enabled has_active_filters shows_pages total_pages total_of params_of settle_clear
    settle_archive
deletion_strands_page d e p r (by_clear n) two none_on few =
    (refl, refl, omega arith, ground arith, ground arith, none_on)
deletion_strands_page d e p r (by_archive n) two none_on few =
    (refl, refl, omega arith, ground arith, ground arith, none_on)
