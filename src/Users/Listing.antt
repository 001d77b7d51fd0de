-- ===== src/Users/Listing.antt =====
-- frontend/src/app/(dashboard)/users/page.tsx: the list of the users of a tenant, its filters and its dialogs.
use harmony_saas_multitenanc.Base.{
  ℕ, String, Bool, true, false, ◌≡◌, refl, Option, none, some, List, ◌∷◌, get_elem?, remove_at,
  ◌==◌, if◌then◌else◌,
}
use harmony_saas_multitenanc.Browser.{truthy}
use harmony_saas_multitenanc.Client.{Reply, success, failure}
use harmony_saas_multitenanc.Users.{UserWithBranch}

pub record UserListResponse : Type 0 where
  pub users : List UserWithBranch
  pub total : ℕ
  pub page : ℕ
  pub page_size : ℕ

pub record UserQuery : Type 0 where
  pub limit : ℕ
  pub search : Option String
  pub tenant_role : Option String
  pub branch_id : Option String

pub record LimitCheck : Type 0 where
  pub can_add : Bool
  pub current_count : ℕ
  pub limit : ℕ

-- The state of the page, with the queries that are not answered, the latest one first.
pub record UsersPage : Type 0 where
  pub users : List UserWithBranch
  pub total : ℕ
  pub loading : Bool
  pub search : String
  pub role_filter : String
  pub branch_filter : String
  pub dialog_open : Bool
  pub delete_dialog_open : Bool
  pub limit_dialog_open : Bool
  pub limit_info : Option (ℕ × ℕ)
  pub selected_user : Option UserWithBranch
  pub unanswered : List UserQuery

-- `filter !== 'all' ? filter : undefined`
abbrev unless_all_chosen : String → Option String
unless_all_chosen filter = if filter == "all" then none else some filter

unfoldable pub query_of : UsersPage → UserQuery
query_of p = record {
  limit = 100;
  search = truthy (some p.search);
  tenant_role = unless_all_chosen p.role_filter;
  branch_id = unless_all_chosen p.branch_filter;
}

unfoldable pub load_users : UsersPage → UsersPage
load_users p = record p { loading = true; unanswered = query_of p ∷ p.unanswered }

unfoldable pub users_arrive : Reply UserListResponse → UsersPage → UsersPage
users_arrive (success r) p = record p { users = r.users; total = r.total; loading = false }
users_arrive (failure f) p = record p { loading = false }

-- handleCreate, when the check of the limit has ended.
unfoldable pub handle_create_user : Reply LimitCheck → UsersPage → UsersPage
handle_create_user (success r) p =
    if r.can_add
    then record p { selected_user = none; dialog_open = true }
    else record p { limit_info = some (r.current_count, r.limit); limit_dialog_open = true }
handle_create_user (failure f) p = record p { selected_user = none; dialog_open = true }

unfoldable pub handle_edit_user : UserWithBranch → UsersPage → UsersPage
handle_edit_user user p = record p { selected_user = some user; dialog_open = true }

unfoldable pub handle_delete_user : UserWithBranch → UsersPage → UsersPage
handle_delete_user user p = record p { selected_user = some user; delete_dialog_open = true }

unfoldable pub handle_dialog_close : Bool → UsersPage → UsersPage
unfolding load_users
handle_dialog_close done p =
    let closed : UsersPage = record p { dialog_open = false; selected_user = none } in
    if done then load_users closed else closed

unfoldable pub handle_delete_dialog_close : Bool → UsersPage → UsersPage
unfolding load_users
handle_delete_dialog_close done p =
    let closed : UsersPage = record p { delete_dialog_open = false; selected_user = none } in
    if done then load_users closed else closed

pub data UsersEvent : Type 0 where
  search_typed role_chosen branch_chosen : String → UsersEvent
  limit_checked : Reply LimitCheck → UsersEvent
  edit_clicked delete_clicked : UserWithBranch → UsersEvent
  dialog_closed delete_closed : Bool → UsersEvent
  limit_shown : Bool → UsersEvent
  answered : ℕ → Reply UserListResponse → UsersEvent

-- A filter that changes loads the users again.
unfoldable pub on_users : UsersEvent → UsersPage → UsersPage
unfolding load_users handle_create_user handle_edit_user handle_delete_user handle_dialog_close
    handle_delete_dialog_close users_arrive
on_users (search_typed s) p = load_users (record p { search = s })
on_users (role_chosen s) p = load_users (record p { role_filter = s })
on_users (branch_chosen s) p = load_users (record p { branch_filter = s })
on_users (limit_checked r) p = handle_create_user r p
on_users (edit_clicked user) p = handle_edit_user user p
on_users (delete_clicked user) p = handle_delete_user user p
on_users (dialog_closed done) p = handle_dialog_close done p
on_users (delete_closed done) p = handle_delete_dialog_close done p
on_users (limit_shown b) p = record p { limit_dialog_open = b }
on_users (answered i r) p = users_arrive r (record p { unanswered = remove_at i p.unanswered })

-- Where two filters are set one after the other and the answer for the second comes first, the page ends with
-- the users of the answer for the first one and shows the second one, and it is not loading.
pub late_answer_wins :
    (p : UsersPage) (s t : String) (older newer : UserListResponse)
    → let first = on_users (search_typed s) p in
      let second = on_users (search_typed t) first in
      let between = on_users (answered 0 (success newer)) second in
      let last = on_users (answered 0 (success older)) between in
      (get_elem? second.unanswered 0 ≡ some (query_of second))
      × (get_elem? between.unanswered 0 ≡ some (query_of first))
      × (last.users ≡ older.users)
      × (last.search ≡ t)
      × (query_of last ≡ query_of second)
      × (last.loading ≡ false)
      × (last.unanswered ≡ p.unanswered)
unfolding on_users load_users users_arrive query_of
late_answer_wins p s t older newer = (refl, refl, refl, refl, refl, refl, refl)
