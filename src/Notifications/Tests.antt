-- ===== src/Notifications/Tests.antt =====
-- The theorems on the notifications of crates/infrastructure/src/repositories/chat.rs, applied.
use mesty_api.Common.{ℕ, ◌≡◌, true, false, none, some, List, [], ◌∷◌}
use mesty_api.DomainError.{ok, Guarded}
use mesty_api.Notifications.{
  story_view, NotificationRow, NewNotification, Store, to_notification, new_row,
  create_notification, mark_all_notifications_read, delete_read_notifications,
}
use mesty_api.Notifications.Clearing.{
  MayStore, create_notification-Guarded, IsCleared, delete_read_notifications-IsCleared,
}

abbrev row : ℕ → ℕ → NotificationRow
row i u = record {
  id = i;
  user_id = u;
  type_text = "call";
  data_json = "{}";
  is_read = false;
  read_at = none;
  created_at = 5;
}

abbrev two_users : Store
two_users = record { users = 1 ∷ 2 ∷ []; rows = row 10 1 ∷ row 11 2 ∷ [] }

-- user 1 has read one of two notifications
abbrev one_read : Store
one_read = record {
  users = 1 ∷ 2 ∷ [];
  rows = record (row 9 1) { is_read = true; read_at = some 6 } ∷ row 10 1 ∷ row 11 2 ∷ [];
}

abbrev viewed : NewNotification
viewed = record { user_id = 1; notification_type = story_view; data_json = "{}" }

create_notification-Guarded_example :
    Guarded two_users
      (MayStore 12 viewed two_users)
      (λ x t.
        (x ≡ to_notification story_view (new_row 12 7 viewed))
        × (t ≡ record two_users { rows = new_row 12 7 viewed ∷ row 10 1 ∷ row 11 2 ∷ [] }))
      (create_notification 12 7 viewed two_users)
create_notification-Guarded_example = create_notification-Guarded 12 7 viewed two_users

delete_read_notifications-IsCleared_example :
    ((deleted : ℕ) × (kept : List NotificationRow) × (delete_read_notifications 1 one_read
        ≡ (ok deleted, record one_read { rows = kept }))
      × IsCleared 1 one_read.rows kept deleted)
    × ((delete_read_notifications 1 (mark_all_notifications_read 8 1 one_read).1).1
        ≡ record one_read { rows = row 11 2 ∷ [] })
delete_read_notifications-IsCleared_example = delete_read_notifications-IsCleared 8 1 one_read
