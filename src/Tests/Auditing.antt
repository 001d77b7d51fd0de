-- ===== src/Tests/Auditing.antt =====
-- The page of the audit logs, on concrete logs.
use harmony_saas_multitenanc.Base.{
  ℕ, ◌+◌, ◌*◌, ◌/◌, ◌≤◌, ◌<◌, true, false, ◌≡◌, refl, some, [], ◌∷◌, arith,
}
use harmony_saas_multitenanc.AuditLogs.{
  AuditPage, AuditEvent, AuditLogListResponse, first_view, enabled, handle, params_of,
  get_action_category, category_in, query_params, number, page_size, shows_pages, total_pages,
  total_of, has_active_filters,
}
use harmony_saas_multitenanc.AuditLogs.Pages.{
  Reach, start, after, IsPaged, Reach-IsPaged, turn, every_log_reached,
}
use harmony_saas_multitenanc.AuditLogs.Stranded.{by_clear, deletion_strands_page}

abbrev answer_of : ℕ → AuditLogListResponse
answer_of n = record { logs = []; total = n; limit = 50; offset = 0 }

category_of_a_method : get_action_category "payment_method.created" ≡ "Payment Method"
unfolding get_action_category category_in
category_of_a_method = refl

first_query : query_params (params_of first_view) ≡ ("skip", number 0) ∷ ("limit", number 50) ∷ []
unfolding query_params params_of
first_query = refl

with_answer : Reach true (handle (AuditEvent.arrives (answer_of 120)) first_view)
unfolding enabled
with_answer = after (AuditEvent.arrives (answer_of 120)) start refl

on_second_page : Reach true (turn (answer_of 120) 1 first_view)
unfolding turn enabled shows_pages total_pages total_of handle
on_second_page = after AuditEvent.next with_answer refl

Reach-IsPaged_example : IsPaged true (turn (answer_of 120) 1 first_view)
Reach-IsPaged_example = Reach-IsPaged on_second_page

every_log_reached_example :
    let q = turn (answer_of 120) (119 / 50) first_view in
    let from = (119 / 50) * page_size in
    Reach true q
    × (params_of q ≡ record (params_of first_view) { skip = some from })
    × (from ≤ 119)
    × (119 < from + page_size)
every_log_reached_example =
    every_log_reached (answer_of 120) 119 first_view start refl (omega arith)

abbrev second_page : AuditPage
second_page = record first_view { page = 2; clearing = true; show_clear_dialog = true }

deletion_strands_page_example :
    let e = AuditEvent.cleared_logs (some 120) in
    let q = handle (AuditEvent.arrives (answer_of 1)) (handle e second_page) in
    (q.page ≡ 2)
    × (params_of q).skip ≡ some 50
    × (1 ≤ 50)
    × (enabled true AuditEvent.previous q ≡ false)
    × (enabled true AuditEvent.next q ≡ false)
    × (enabled true AuditEvent.clear_filters q ≡ false)
unfolding has_active_filters
deletion_strands_page_example =
    deletion_strands_page true (AuditEvent.cleared_logs (some 120)) second_page (answer_of 1)
      (by_clear 120) (omega arith) refl (omega arith)
