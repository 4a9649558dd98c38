-- ===== src/Attachments/Store.antt =====
-- The table message_attachments (migrations/010_participants_and_messages.sql and
-- migrations/013_message_attachments_pending_upload.sql) beside those of the messages. The columns that no
-- code sets (the thumbnail, the dimensions and the duration) are left out.
use mesty_api.Common.{ℕ, Bool, String, Option, List}
use mesty_api.DomainError.{Result}
use mesty_api.Keys.Store.{ℤ}
use mesty_api.Chat.Store as Chats
use mesty_api.Messages.Store as Inbox

pub record AttachmentRow : Type 0 where
  pub id : ℕ
  pub message_id : Option ℕ
  pub uploader_id : ℕ
  pub chat_id : Option ℕ
  pub object_key : String
  pub file_url : String
  pub file_type : String
  pub file_size : ℤ
  pub file_name : Option String
  pub encryption_key_enc : Option String
  pub encryption_iv : Option String
  pub confirmed : Bool
  pub confirmed_at : Option ℕ
  pub created_at : ℕ

pub record Store : Type 0 where
  pub inbox : Inbox.Store
  pub attachments : List AttachmentRow

-- a query that reads and writes only the tables of the messages, or only those of the chats
abbrev pub at_inbox :
    {A : Type 0} → (Inbox.Store → Result A × Inbox.Store) → Store → Result A × Store
at_inbox m s = let (r, t) = m s.inbox in (r, record s { inbox = t })

abbrev pub at_chats :
    {A : Type 0} → (Chats.Store → Result A × Chats.Store) → Store → Result A × Store
at_chats m = at_inbox (λ i. let (r, t) = m i.chat in (r, record i { chat = t }))
