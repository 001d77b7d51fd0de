-- ===== src/AuditLogs.antt =====
-- frontend/src/app/(auth)/admin/logs/AuditLogsClient.tsx, with frontend/src/lib/api/audit.ts: the page of
-- the audit logs, its filters and its pages, and what it asks the server for.
pub mod Pages
pub mod Stranded
use Prim.Native.String
use harmony_saas_multitenanc.Base.{
  ℕ, zero, suc, ◌+◌, ◌-◌, ◌*◌, ◌/◌, String, Bool, true, false, not, ◌&&◌, ◌||◌, Option, none, some,
  List, [], ◌∷◌, ◌++◌, ltb, leb, nat_eq, is_some, ◌==◌, if◌then◌else◌, starts_with,
}
use harmony_saas_multitenanc.Browser.{truthy}

-- A log, without its details, which are only shown.
pub record AuditLog : Type 0 where
  pub id : String
  pub user_id : Option String
  pub tenant_id : Option String
  pub action : String
  pub resource : String
  pub resource_id : Option String
  pub status : String
  pub ip_address : Option String
  pub user_agent : Option String
  pub request_id : Option String
  pub timestamp : String

pub record AuditLogListResponse : Type 0 where
  pub logs : List AuditLog
  pub total : ℕ
  pub limit : ℕ
  pub offset : ℕ

pub record AuditLogParams : Type 0 where
  pub skip : Option ℕ
  pub limit : Option ℕ
  pub action : Option String
  pub resource : Option String
  pub status : Option String
  pub user_id : Option String
  pub tenant_id : Option String
  pub start_date : Option String
  pub end_date : Option String
  pub search : Option String

pub record ArchiveFile : Type 0 where
  pub name : String
  pub size_bytes : ℕ
  pub size_readable : String

pub record ArchiveResult : Type 0 where
  pub message : String
  pub archived : ℕ
  pub before_date : String
  pub file : Option ArchiveFile

-- The state of the page, with the answer to the query of its present parameters, if there is one.
pub record AuditPage : Type 0 where
  pub page : ℕ
  pub search : String
  pub action_filter : String
  pub resource_filter : String
  pub status_filter : String
  pub expanded_row : Option String
  pub show_clear_dialog : Bool
  pub show_archive_dialog : Bool
  pub show_archives_panel : Bool
  pub archive_days : ℕ
  pub clear_result : Option ℕ
  pub archive_result : Option ArchiveResult
  pub clearing : Bool
  pub archiving : Bool
  pub response : Option AuditLogListResponse

abbrev pub page_size : ℕ
page_size = 50

abbrev pub first_view : AuditPage
first_view = record {
  page = 1;
  search = "";
  action_filter = "all";
  resource_filter = "all";
  status_filter = "all";
  expanded_row = none;
  show_clear_dialog = false;
  show_archive_dialog = false;
  show_archives_panel = false;
  archive_days = 0;
  clear_result = none;
  archive_result = none;
  clearing = false;
  archiving = false;
  response = none;
}

abbrev pub unless_all : String → Option String
unless_all filter = if filter == "all" then none else some filter

unfoldable pub params_of : AuditPage → AuditLogParams
params_of p = record {
  skip = some ((p.page - 1) * page_size);
  limit = some page_size;
  action = unless_all p.action_filter;
  resource = unless_all p.resource_filter;
  status = unless_all p.status_filter;
  user_id = none;
  tenant_id = none;
  start_date = none;
  end_date = none;
  search = truthy (some p.search);
}

-- `response?.total || 0`, and `Math.ceil(total / pageSize)`
unfoldable pub total_of : AuditPage → ℕ
total_of p = elim p.response [ none ↦ 0 | some r ↦ r.total ]

unfoldable pub total_pages : AuditPage → ℕ
unfolding total_of
total_pages p = (total_of p + (page_size - 1)) / page_size

unfoldable pub has_active_filters : AuditPage → Bool
has_active_filters p =
    not (p.search == "")
    || not (p.action_filter == "all")
    || not (p.resource_filter == "all")
    || not (p.status_filter == "all")

-- The row of buttons under the table.
unfoldable pub shows_pages : AuditPage → Bool
unfolding total_pages
shows_pages p = is_some p.response && ltb 1 (total_pages p)

pub data AuditEvent : Type 0 where
  type_search choose_action choose_resource choose_status : String → AuditEvent
  clear_filters previous next : AuditEvent
  toggle_row : String → AuditEvent
  show_clear show_archive : Bool → AuditEvent
  toggle_archives confirm_clear confirm_archive : AuditEvent
  choose_days : ℕ → AuditEvent
  cleared_logs : Option ℕ → AuditEvent
  archived_logs : Option ArchiveResult → AuditEvent
  arrives : AuditLogListResponse → AuditEvent

-- Which controls there are, and which can be used. A response may arrive at any time, the end of a
-- mutation while it is open.
unfoldable pub enabled : Bool → AuditEvent → AuditPage → Bool
unfolding shows_pages has_active_filters total_pages
enabled dev_mode clear_filters p = has_active_filters p
enabled dev_mode previous p = shows_pages p && not (nat_eq p.page 1)
enabled dev_mode next p = shows_pages p && not (nat_eq p.page (total_pages p))
enabled dev_mode (show_clear true) p = dev_mode
enabled dev_mode (show_clear false) p = p.show_clear_dialog
enabled dev_mode (show_archive false) p = p.show_archive_dialog
enabled dev_mode confirm_clear p = p.show_clear_dialog && not p.clearing
enabled dev_mode confirm_archive p = p.show_archive_dialog && not p.archiving
enabled dev_mode (choose_days days) p = p.show_archive_dialog
enabled dev_mode (cleared_logs result) p = p.clearing
enabled dev_mode (archived_logs result) p = p.archiving
enabled dev_mode event p = true

-- With other parameters the query is another one; its answer, if the cache has it, arrives at once.
abbrev pub asks_anew : AuditPage → AuditPage
asks_anew p = record p { response = none }

abbrev pub min_of : ℕ → ℕ → ℕ
min_of a b = if leb a b then a else b

abbrev pub max_of : ℕ → ℕ → ℕ
max_of a b = if leb a b then b else a

unfoldable pub expand : Option String → String → Option String
expand none id = some id
expand (some row) id = if row == id then none else some id

abbrev pub without_filters : AuditPage → AuditPage
without_filters p = asks_anew (record p {
  search = "";
  action_filter = "all";
  resource_filter = "all";
  status_filter = "all";
  page = 1;
})

-- The end of a mutation: its result, if the server accepts it.
unfoldable pub settle_clear : Option ℕ → AuditPage → AuditPage
settle_clear none p = record p { clearing = false }
settle_clear (some deleted) p = record p {
  clearing = false;
  show_clear_dialog = false;
  clear_result = some deleted;
  archive_result = none;
}

unfoldable pub settle_archive : Option ArchiveResult → AuditPage → AuditPage
settle_archive none p = record p { archiving = false }
settle_archive (some result) p = record p {
  archiving = false;
  show_archive_dialog = false;
  archive_result = some result;
  clear_result = none;
}

unfoldable pub handle : AuditEvent → AuditPage → AuditPage
unfolding expand total_pages settle_clear settle_archive
handle (type_search s) p = asks_anew (record p { search = s; page = 1 })
handle (choose_action v) p = asks_anew (record p { action_filter = v; page = 1 })
handle (choose_resource v) p = asks_anew (record p { resource_filter = v; page = 1 })
handle (choose_status v) p = asks_anew (record p { status_filter = v; page = 1 })
handle clear_filters p = without_filters p
handle previous p = asks_anew (record p { page = max_of 1 (p.page - 1) })
handle next p = asks_anew (record p { page = min_of (total_pages p) (p.page + 1) })
handle (toggle_row id) p = record p { expanded_row = expand p.expanded_row id }
handle (show_clear open_it) p = record p { show_clear_dialog = open_it }
handle (show_archive open_it) p = record p { show_archive_dialog = open_it }
handle toggle_archives p = record p { show_archives_panel = not p.show_archives_panel }
handle confirm_clear p = record p { clearing = true }
handle confirm_archive p = record p { archiving = true }
handle (choose_days days) p = record p { archive_days = days }
handle (cleared_logs result) p = settle_clear result p
handle (archived_logs result) p = settle_archive result p
handle (arrives r) p = record p { response = some r }

-- The time before which the logs are archived, in milliseconds; `sub_days` is that of date-fns.
unfoldable pub archive_cutoff : (ℕ → ℕ → ℕ) → ℕ → ℕ → ℕ
archive_cutoff sub_days now days =
    if nat_eq days 0 then now + 24 * 60 * 60 * 1000 else sub_days now days

pub data Field : Type 0 where
  number : ℕ → Field
  word : String → Field

abbrev appended : String → Option String → List (String × Field)
appended key value = elim (truthy value) [ none ↦ [] | some v ↦ (key, word v) ∷ [] ]

abbrev appended_number : String → Option ℕ → List (String × Field)
appended_number key value = elim value [ none ↦ [] | some n ↦ (key, number n) ∷ [] ]

-- The query string of getAuditLogs, before it is written out.
unfoldable pub query_params : AuditLogParams → List (String × Field)
query_params params =
    appended_number "skip" params.skip
    ++ (appended_number "limit" params.limit
        ++ (appended "action" params.action
            ++ (appended "resource" params.resource
                ++ (appended "status" params.status
                    ++ (appended "user_id" params.user_id
                        ++ (appended "tenant_id" params.tenant_id
                            ++ (appended "start_date" params.start_date
                                ++ (appended "end_date" params.end_date
                                    ++ appended "search" params.search))))))))

abbrev pub action_categories : List (String × String)
action_categories =
    ("auth.", "Authentication")
    ∷ ("tenant.", "Tenant")
    ∷ ("user.", "User")
    ∷ ("branch.", "Branch")
    ∷ ("settings.", "Settings")
    ∷ ("system.", "System")
    ∷ ("tier.", "Subscription Tier")
    ∷ ("payment_method.", "Payment Method")
    ∷ ("upgrade.", "Upgrade Request")
    ∷ ("file.", "File")
    ∷ []

unfoldable pub category_in : List (String × String) → String → String
category_in [] action = "Other"
category_in ((beginning, category) ∷ rest) action =
    if starts_with action beginning then category else category_in rest action

unfoldable pub get_action_category : String → String
unfolding category_in
get_action_category action = category_in action_categories action
