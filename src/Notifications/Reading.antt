-- ===== src/Notifications/Reading.antt =====
-- frontend/src/lib/api/notifications.ts: what the client reads of the answers.
use harmony_saas_multitenanc.Base.{ℕ, ◌≡◌, refl, Option, none, some}
use harmony_saas_multitenanc.Client.{Reply, success, failure}
use harmony_saas_multitenanc.Notifications.{
  NotificationListResponse, empty_list_response, Body, data_or, list_notifications,
  get_unread_count, Cache, fetched,
}

-- The answer has no field `data`, as the answers of the server's notification endpoints.
abbrev pub IsBare : {A : Type 0} → Reply (Option (Body A)) → Type 0
IsBare (failure f) = Unit {0}
IsBare (success none) = Unit {0}
IsBare (success (some body)) = body.data_field ≡ none

data_or-IsBare :
    {A : Type 0} (fallback : A) (reply : Reply (Option (Body A)))
    → IsBare reply
    → data_or fallback reply ≡ fallback
unfolding data_or
data_or-IsBare fallback (failure f) h = refl
data_or-IsBare fallback (success none) h = refl
data_or-IsBare fallback (success (some body)) h = rw h refl

-- `apiClient.get` returns the body of the answer already, and the functions read its field `data`. So
-- whatever the server answers, as long as its answers have no such field, the list of notifications is
-- the empty one, the count is 0, and the query puts 0 into the cache.
pub notifications_never_arrive :
    {N : Type 0} (listed : Reply (Option (Body (NotificationListResponse N))))
    (counted : Reply (Option (Body ℕ))) (c : Cache)
    → IsBare listed
    → IsBare counted
    → (list_notifications listed ≡ empty_list_response)
      × (get_unread_count counted ≡ 0)
      × ((fetched counted c).unread_count ≡ some 0)
unfolding list_notifications get_unread_count fetched
notifications_never_arrive listed counted c h k = (
  data_or-IsBare empty_list_response listed h,
  data_or-IsBare 0 counted k,
  rw (data_or-IsBare 0 counted k) refl,
)
