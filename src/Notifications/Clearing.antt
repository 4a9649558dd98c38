-- ===== src/Notifications/Clearing.antt =====
-- Which notifications are stored, and what reading and deleting leaves: the notification queries of
-- crates/infrastructure/src/repositories/chat.rs.
use mesty_api.Common.{
  ℕ, ◌+◌, ◌≡◌, ◌&&◌, refl, ap, length, count, inl, inr, Bool, true, false, some, List, [], ◌∷◌,
  ◌||◌, ◌==◌, not, any, if◌then◌else◌, arith, Bool-cases, update_where, delete_where, select_where,
}
use mesty_api.DomainError.{
  internal, already_exists, validation, ok, err, Guarded, Guarded-ok, Guarded-err,
}
use mesty_api.Notifications.{
  NotificationType, new_message, story_reaction, story_view, participant_added, call_incoming,
  as_db_str, from_db_str, is_notification_type, NotificationRow, NewNotification, Store,
  to_notification, new_row, create_notification, as_read, is_unread_of, is_read_of,
  mark_all_notifications_read, delete_read_notifications,
}

-- the types of which the database has a value
abbrev pub is_storable : NotificationType → Bool
is_storable new_message = false
is_storable story_reaction = false
is_storable story_view = true
is_storable participant_added = false
is_storable call_incoming = true

is_notification_type-as_db_str :
    (t : NotificationType) → is_notification_type (as_db_str t) ≡ is_storable t
unfolding is_notification_type as_db_str
is_notification_type-as_db_str new_message = refl
is_notification_type-as_db_str story_reaction = refl
is_notification_type-as_db_str story_view = refl
is_notification_type-as_db_str participant_added = refl
is_notification_type-as_db_str call_incoming = refl

-- The text of a type is read back as the type.
pub from_db_str-as_db_str : (t : NotificationType) → from_db_str (as_db_str t) ≡ some t
unfolding from_db_str as_db_str
from_db_str-as_db_str new_message = refl
from_db_str-as_db_str story_reaction = refl
from_db_str-as_db_str story_view = refl
from_db_str-as_db_str participant_added = refl
from_db_str-as_db_str call_incoming = refl

abbrev pub MayStore : ℕ → NewNotification → Store → Type 0
MayStore id n s =
    (is_storable n.notification_type ≡ true)
    × (any (λ (r : NotificationRow). r.id == id) s.rows ≡ false)
    × (any (λ u. u == n.user_id) s.users ≡ true)

pub create_notification_lem :
    (id now : ℕ) (n : NewNotification) (s : Store)
    → create_notification id now n s ≡ (
        if not (is_storable n.notification_type)
        then (err (internal "Database operation failed"), s)
        else if any (λ (r : NotificationRow). r.id == id) s.rows
        then (err (already_exists "Resource already exists"), s)
        else if not (any (λ u. u == n.user_id) s.users)
        then (err (validation "Referenced resource not found"), s)
        else (
          ok (to_notification n.notification_type (new_row id now n)),
          record s { rows = new_row id now n ∷ s.rows },
        ))
unfolding create_notification
create_notification_lem id now n s = ground (
  arith,
  is_notification_type-as_db_str n.notification_type,
  from_db_str-as_db_str n.notification_type,
)

-- `create_notification` succeeds exactly for a view of a story or a call, a new id and a known user: the
-- database has no value for the other types. Otherwise nothing is stored.
pub create_notification-Guarded :
    (id now : ℕ) (n : NewNotification) (s : Store)
    → Guarded s
        (MayStore id n s)
        (λ x t.
          (x ≡ to_notification n.notification_type (new_row id now n))
          × (t ≡ record s { rows = new_row id now n ∷ s.rows }))
        (create_notification id now n s)
create_notification-Guarded id now n s =
    let law = create_notification_lem id now n s in
    elim (Bool-cases (
      not (is_storable n.notification_type)
      || any (λ (r : NotificationRow). r.id == id) s.rows
      || not (any (λ u. u == n.user_id) s.users))) [
        | inl refused ↦
            Guarded-err _ _ _ _ (λ x. ground (arith, law)) (ground (arith, law)) (λ p. ground arith)
        | inr allowed ↦
            Guarded-ok _ _ _ _ {a = to_notification n.notification_type (new_row id now n)}
              {t = record s { rows = new_row id now n ∷ s.rows }} (ground (arith, law))
              (ground arith, ground arith, ground arith) (refl, refl)
      ]

-- What is left of the rows when those of a user that are read are deleted: the rows of the others and the
-- unread ones, in their order, and no read row of the user.
pub record IsCleared (u : ℕ) (rows kept : List NotificationRow) (deleted : ℕ) : Type 0 where
  pub others :
      select_where (λ r. not (r.user_id == u)) kept ≡ select_where (λ r. not (r.user_id == u)) rows
  pub unread : select_where (λ r. not r.is_read) kept ≡ select_where (λ r. not r.is_read) rows
  pub gone : any (λ (r : NotificationRow). r.user_id == u && r.is_read) kept ≡ false
  pub counted : length kept + deleted ≡ length rows

module _ (u : ℕ) where
  others_stay :
      (rows : List NotificationRow)
      → select_where (λ r. not (r.user_id == u)) (delete_where (is_read_of u) rows)
        ≡ select_where (λ r. not (r.user_id == u)) rows
  others_stay [] = refl
  others_stay (r ∷ rs) = ground (arith, others_stay rs)

  unread_stay :
      (rows : List NotificationRow)
      → select_where (λ r. not r.is_read) (delete_where (is_read_of u) rows)
        ≡ select_where (λ r. not r.is_read) rows
  unread_stay [] = refl
  unread_stay (r ∷ rs) = ground (arith, unread_stay rs)

  none_read :
      (rows : List NotificationRow)
      → any
          (λ (r : NotificationRow). r.user_id == u && r.is_read)
          (delete_where (is_read_of u) rows)
        ≡ false
  none_read [] = refl
  none_read (r ∷ rs) = ground (arith, none_read rs)

  all_counted :
      (rows : List NotificationRow)
      → length (delete_where (is_read_of u) rows) + count (is_read_of u) rows ≡ length rows
  all_counted [] = refl
  all_counted (r ∷ rs) = ground (arith, all_counted rs)

module _ (now u : ℕ) where
  cleared :
      (rows : List NotificationRow)
      → delete_where (is_read_of u) (update_where (is_unread_of u) (as_read now) rows)
        ≡ select_where (λ r. not (r.user_id == u)) rows
  cleared [] = refl
  cleared (r ∷ rs) = ground (arith, cleared rs)

  -- `delete_read_notifications` leaves the notifications of the other users and those that are not read,
  -- in their order, deletes every read one of the user, returns how many, and changes nothing else. After
  -- `mark_all_notifications_read` it leaves exactly the notifications of the other users.
  pub delete_read_notifications-IsCleared :
      (s : Store)
      → ((deleted : ℕ) × (kept : List NotificationRow) × (delete_read_notifications u s
            ≡ (ok deleted, record s { rows = kept }))
          × IsCleared u s.rows kept deleted)
        × ((delete_read_notifications u (mark_all_notifications_read now u s).1).1
            ≡ record s { rows = select_where (λ r. not (r.user_id == u)) s.rows })
  unfolding delete_read_notifications mark_all_notifications_read
  delete_read_notifications-IsCleared s = (
    (
      count (is_read_of u) s.rows,
      delete_where (is_read_of u) s.rows,
      refl,
      record {
        others = others_stay u s.rows;
        unread = unread_stay u s.rows;
        gone = none_read u s.rows;
        counted = all_counted u s.rows;
      },
    ),
    ap (λ rows. record s { rows = rows }) (cleared s.rows),
  )
