-- ===== src/Tests/Notifying.antt =====
-- Notifications at concrete answers.
use harmony_saas_multitenanc.Base.{ℕ, String, Option, none, some, [], ◌∷◌}
use harmony_saas_multitenanc.Client.{Reply, success}
use harmony_saas_multitenanc.Notifications.{NotificationListResponse, Body, Cache}

-- The server has one notification, which is not read.
abbrev listed : Reply (Option (Body (NotificationListResponse String)))
listed = success (
    some (record {
      content = record {
        notifications = "payment received" ∷ [];
        total = 1;
        unread_count = 1;
        page = 1;
        page_size = 10;
        total_pages = 1;
      };
      data_field = none;
    }))

abbrev counted : Reply (Option (Body ℕ))
counted = success (some (record { content = 1; data_field = none }))

abbrev five : Cache
five = record { unread_count = some 5 }
