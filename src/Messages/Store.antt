-- ===== src/Messages/Store.antt =====
-- The tables `messages`, `message_status`, `message_reactions` and `chat_settings`
-- (migrations/009_chats_and_settings.sql and migrations/010_participants_and_messages.sql) beside those
-- of the chats and `user_blocks`, the counters of Redis and the queue of push jobs. The column expires_at of `messages`, which no modelled query reads or
-- sets, is left out.
use mesty_api.Common.{
  ℕ, Bool, true, false, String, Option, none, some, List, ◌&&◌, ◌||◌, ◌==◌, is_none, is_some, not,
  str_eq, if◌then◌else◌,
}
use mesty_api.DomainError.{Result}
use mesty_api.Keys.Store.{Block, ℤ}
use mesty_api.Otp.{Redis}
use mesty_api.Chat.Store as Chats
use mesty_api.Chat.Store.{Participant, is_active, is_live}

pub record Message : Type 0 where
  pub id : ℕ
  pub chat_id : ℕ
  pub sender_id : Option ℕ
  pub reply_to_id : Option ℕ
  pub content_encrypted : Option String
  pub content_iv : Option String
  pub message_type : String
  pub metadata : Option String
  pub is_forwarded : Bool
  pub created_at : ℕ
  pub edited_at : Option ℕ
  pub deleted_at : Option ℕ

-- the values of `message_status_enum`
pub data Delivery : Type 0 where
  sending sent delivered read failed : Delivery

pub record StatusRow : Type 0 where
  pub message_id : ℕ
  pub user_id : ℕ
  pub status : Delivery
  pub updated_at : ℕ

pub record Reaction : Type 0 where
  pub id : ℕ
  pub message_id : ℕ
  pub user_id : ℕ
  pub reaction : String
  pub created_at : ℕ

pub record SettingsRow : Type 0 where
  pub user_id : ℕ
  pub chat_id : ℕ
  pub is_muted : Bool
  pub muted_until : Option ℕ
  pub is_pinned : Bool
  pub pin_order : ℤ
  pub is_archived : Bool

-- a job of the push queue for a new message (`PushNotificationJob`)
pub record PushJob : Type 0 where
  pub user_id : ℕ
  pub chat_id : ℕ
  pub message_id : ℕ
  pub sender_id : ℕ

pub record Store : Type 0 where
  pub chat : Chats.Store
  pub user_blocks : List Block
  pub messages : List Message
  pub statuses : List StatusRow
  pub reactions : List Reaction
  pub settings : List SettingsRow
  pub redis : Redis
  pub pushed : List PushJob

-- a query over the tables of the chats
abbrev pub on_chats :
    {A : Type 0} → (Chats.Store → Result A × Chats.Store) → Store → Result A × Store
on_chats m s = let (r, c) = m s.chat in (r, record s { chat = c })

-- `sender_id = u`, which is not true of NULL
abbrev pub is_from : ℕ → Message → Bool
is_from u m = elim m.sender_id [ none ↦ false | some a ↦ a == u ]

-- `sender_id != u`, which is not true of NULL
abbrev pub is_from_other : ℕ → Message → Bool
is_from_other u m = elim m.sender_id [ none ↦ false | some a ↦ not (a == u) ]

-- `id = i AND sender_id = u AND deleted_at IS NULL`
abbrev pub is_own : ℕ → ℕ → Message → Bool
is_own i u m = m.id == i && is_from u m && is_none m.deleted_at

-- `status = 'read'`
abbrev pub is_read : Delivery → Bool
is_read read = true
is_read sending = false
is_read sent = false
is_read delivered = false
is_read failed = false

-- the values of the type `message_type`
unfoldable pub is_message_type : String → Bool
is_message_type t =
    str_eq t "text"
    || str_eq t "image"
    || str_eq t "video"
    || str_eq t "audio"
    || str_eq t "file"
    || str_eq t "location"
    || str_eq t "contact"
    || str_eq t "sticker"
    || str_eq t "deleted"
    || str_eq t "system"

-- `chk_text_message_has_content`
unfoldable pub has_content : Message → Bool
has_content m =
    not (str_eq m.message_type "text")
    || is_some m.deleted_at
    || is_some m.content_encrypted && is_some m.content_iv

-- `chk_content_iv_consistency`
unfoldable pub is_consistent : Message → Bool
is_consistent m =
    if is_none m.content_encrypted then is_none m.content_iv else not (is_none m.content_iv)
