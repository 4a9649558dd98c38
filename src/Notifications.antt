-- ===== src/Notifications.antt =====
-- In-app notifications: crates/domain/src/chat/notifications.rs, the notification queries of
-- crates/infrastructure/src/repositories/chat.rs and the table of
-- migrations/011_stories_notifications_audit.sql. `now` is `NOW()`, and `id` the new id.
pub mod Clearing
mod Tests
use mesty_api.Common.{
  ℕ, suc, ◌+◌, Bool, true, false, String, Option, none, some, List, [], ◌∷◌, ◌&&◌, ◌||◌, ◌==◌, not,
  any, count, find?, if◌then◌else◌, str_eq, ltb, unwrap_or, select_where, update_where,
  delete_where, take, order_with,
}
use mesty_api.DomainError.{
  validation, not_found, already_exists, internal, Result, pure, gets, modify, throw_if, ok_or,
  ◌>>=◌, ◌>>◌,
}
use mesty_api.Keys.Store.{ℤ, pos}
use mesty_api.Messages.Listing.{clamp}

pub data NotificationType : Type 0 where
  new_message story_reaction story_view participant_added call_incoming : NotificationType

unfoldable pub as_db_str : NotificationType → String
as_db_str new_message = "new_message"
as_db_str story_reaction = "story_reaction"
as_db_str story_view = "story_view"
as_db_str participant_added = "participant_added"
as_db_str call_incoming = "call"

unfoldable pub from_db_str : String → Option NotificationType
from_db_str value =
    if str_eq value "new_message"
    then some new_message
    else if str_eq value "story_reaction"
    then some story_reaction
    else if str_eq value "story_view"
    then some story_view
    else if str_eq value "participant_added"
    then some participant_added
    else if str_eq value "call"
    then some call_incoming
    else none

-- the values of the type `notification_type` (migrations/001_extensions_and_types.sql)
unfoldable pub is_notification_type : String → Bool
is_notification_type t =
    str_eq t "message"
    || str_eq t "reaction"
    || str_eq t "group_invite"
    || str_eq t "story_view"
    || str_eq t "call"
    || str_eq t "system"

pub record NotificationRow : Type 0 where
  pub id : ℕ
  pub user_id : ℕ
  pub type_text : String
  pub data_json : String
  pub is_read : Bool
  pub read_at : Option ℕ
  pub created_at : ℕ

pub record Notification : Type 0 where
  pub id : ℕ
  pub user_id : ℕ
  pub notification_type : NotificationType
  pub data_json : String
  pub is_read : Bool
  pub read_at : Option ℕ
  pub created_at : ℕ

pub record NewNotification : Type 0 where
  pub user_id : ℕ
  pub notification_type : NotificationType
  pub data_json : String

pub record NotificationCursor : Type 0 where
  pub created_at : ℕ
  pub id : ℕ

pub record Store : Type 0 where
  pub users : List ℕ
  pub rows : List NotificationRow

abbrev pub to_notification : NotificationType → NotificationRow → Notification
to_notification t r = record {
  id = r.id;
  user_id = r.user_id;
  notification_type = t;
  data_json = r.data_json;
  is_read = r.is_read;
  read_at = r.read_at;
  created_at = r.created_at;
}

abbrev pub new_row : ℕ → ℕ → NewNotification → NotificationRow
new_row id now n = record {
  id = id;
  user_id = n.user_id;
  type_text = as_db_str n.notification_type;
  data_json = n.data_json;
  is_read = false;
  read_at = none;
  created_at = now;
}

unfoldable pub create_notification : ℕ → ℕ → NewNotification → Store → Result Notification × Store
create_notification id now n = do
  let row : NotificationRow = new_row id now n
  throw_if (not (is_notification_type row.type_text)) (internal "Database operation failed")
  throw_if (← gets (λ s. any (λ (r : NotificationRow). r.id == id) s.rows))
      (already_exists "Resource already exists")
  throw_if (← gets (λ s. not (any (λ u. u == n.user_id) s.users)))
      (validation "Referenced resource not found")
  modify (λ s. record s { rows = row ∷ s.rows })
  t ← ok_or (from_db_str row.type_text) (internal "invalid notification type")
  pure (to_notification t row)

-- `(created_at, id) < (c.created_at, c.id)`
abbrev pub is_before : NotificationRow → NotificationCursor → Bool
is_before r c = ltb r.created_at c.created_at || r.created_at == c.created_at && ltb r.id c.id

abbrev pub is_listed : ℕ → Option NotificationCursor → NotificationRow → Bool
is_listed u cursor r = r.user_id == u && elim cursor [ none ↦ true | some c ↦ is_before r c ]

-- `ORDER BY created_at DESC, id DESC`
abbrev pub goes_first : NotificationRow → NotificationRow → Bool
goes_first a b = is_before b (record { created_at = a.created_at; id = a.id })

-- a row whose type has no reading makes the whole list an error
unfoldable pub read_all : List NotificationRow → Store → Result (List Notification) × Store
read_all [] = pure []
read_all (r ∷ rs) = do
  t ← ok_or (from_db_str r.type_text) (internal "invalid notification type")
  ns ← read_all rs
  pure (to_notification t r ∷ ns)

unfoldable pub list_notifications :
    ℕ → Option NotificationCursor → ℤ → Store → Result (List Notification) × Store
list_notifications u cursor limit = do
  rows ←
      gets
        (λ s. take (clamp limit) (order_with goes_first (select_where (is_listed u cursor) s.rows)))
  read_all rows

abbrev pub as_read : ℕ → NotificationRow → NotificationRow
as_read now r = record r { is_read = true; read_at = some now }

unfoldable pub mark_notification_read : ℕ → ℕ → ℕ → Store → Result (Unit {0}) × Store
mark_notification_read now u i = do
  found ← gets (λ s. any (λ r. r.id == i && r.user_id == u && not r.is_read) s.rows)
  modify (λ s. record s {
    rows = update_where (λ r. r.id == i && r.user_id == u && not r.is_read) (as_read now) s.rows;
  })
  throw_if (not found) (not_found "notification not found or already read")

abbrev pub is_unread_of : ℕ → NotificationRow → Bool
is_unread_of u r = r.user_id == u && not r.is_read

abbrev pub is_read_of : ℕ → NotificationRow → Bool
is_read_of u r = r.user_id == u && r.is_read

unfoldable pub mark_all_notifications_read : ℕ → ℕ → Store → Result ℕ × Store
mark_all_notifications_read now u = do
  n ← gets (λ s. count (is_unread_of u) s.rows)
  modify (λ s. record s { rows = update_where (is_unread_of u) (as_read now) s.rows })
  pure n

unfoldable pub delete_read_notifications : ℕ → Store → Result ℕ × Store
delete_read_notifications u = do
  n ← gets (λ s. count (is_read_of u) s.rows)
  modify (λ s. record s { rows = delete_where (is_read_of u) s.rows })
  pure n
