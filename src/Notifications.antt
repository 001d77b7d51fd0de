-- ===== src/Notifications.antt =====
-- frontend/src/lib/api/notifications.ts and frontend/src/hooks/use-notifications.ts: the reading of notifications, and
-- the count of unread ones in the cache of queries. `N` is the type of notifications.
pub mod Reading
pub mod Rollback
use harmony_saas_multitenanc.Base.{ℕ, ◌-◌, String, Option, none, some, List, [], length}
use harmony_saas_multitenanc.Client.{Reply, success, failure}

pub record NotificationListResponse (N : Type 0) : Type 0 where
  pub notifications : List N
  pub total : ℕ
  pub unread_count : ℕ
  pub page : ℕ
  pub page_size : ℕ
  pub total_pages : ℕ

unfoldable pub empty_list_response : {N : Type 0} → NotificationListResponse N
empty_list_response = record {
  notifications = [];
  total = 0;
  unread_count = 0;
  page = 1;
  page_size = 10;
  total_pages = 1;
}

-- The body of an answer, which `apiClient.get` returns: what the server sends, and what its field `data`
-- is, where it has one.
pub record Body (A : Type 0) : Type 0 where
  pub content : A
  pub data_field : Option A

-- `response.data ?? fallback` in a `try` whose `catch` returns the fallback, also for a body that is null
unfoldable pub data_or : {A : Type 0} → A → Reply (Option (Body A)) → A
data_or fallback (failure f) = fallback
data_or fallback (success none) = fallback
data_or fallback (success (some body)) = elim body.data_field [ none ↦ fallback | some a ↦ a ]

unfoldable pub list_notifications :
    {N : Type 0} → Reply (Option (Body (NotificationListResponse N))) → NotificationListResponse N
list_notifications reply = data_or empty_list_response reply

-- The count stands for the object `{ unread_count }`.
unfoldable pub get_unread_count : Reply (Option (Body ℕ)) → ℕ
get_unread_count reply = data_or 0 reply

-- What the cache holds of the count, if anything.
pub record Cache : Type 0 where
  pub unread_count : Option ℕ

-- `onMutate` of `useMarkAsRead`, and the context that it returns; `Math.max(0, n - m)` is the
-- subtraction of ℕ.
unfoldable pub mark_read : List String → Cache → Cache
mark_read ids c = elim c.unread_count [
  | none ↦ c
  | some n ↦ record c { unread_count = some (n - length ids) }
]

-- `onMutate` of `useMarkAllAsRead`
unfoldable pub mark_all_read : Cache → Cache
mark_all_read c = record c { unread_count = some 0 }

unfoldable pub context_of : Cache → Option ℕ
context_of c = c.unread_count

-- `onError` of both
unfoldable pub roll_back : Option ℕ → Cache → Cache
roll_back none c = c
roll_back (some n) c = record c { unread_count = some n }

-- The answer to the query of the count.
unfoldable pub fetched : Reply (Option (Body ℕ)) → Cache → Cache
fetched reply c = record c { unread_count = some (get_unread_count reply) }
