-- ===== src/Attachments/Queries.antt =====
-- The attachment queries of `PostgresChatRepository`
-- (crates/infrastructure/src/repositories/chat.rs). `now` is `NOW()`.
use mesty_api.Common.{
  ℕ, Bool, true, false, String, Option, none, some, ◌∷◌, ◌&&◌, ◌==◌, not, any, find?, is_none,
  if◌then◌else◌, update_where,
}
use mathlib.Core.Option
use mesty_api.DomainError.{
  not_found, already_exists, validation, Result, ok, err, pure, gets, modify, throw_if, ok_or,
  ◌>>=◌, ◌>>◌,
}
use mesty_api.Keys.Store.{ℤ}
use mesty_api.Chat.Store.{ChatRow}
use mesty_api.Messages.Store.{Message}
use mesty_api.Messages.Queries.{ensure_active_membership, ensure_active_membership_pool}
use mesty_api.Attachments.Store.{AttachmentRow, Store, at_inbox}

pub record NewPendingAttachment : Type 0 where
  pub attachment_id : ℕ
  pub uploader_id : ℕ
  pub chat_id : Option ℕ
  pub object_key : String
  pub file_url : String
  pub file_type : String
  pub file_size : ℤ
  pub file_name : Option String

abbrev pub new_row : ℕ → NewPendingAttachment → AttachmentRow
new_row now a = record {
  id = a.attachment_id;
  message_id = none;
  uploader_id = a.uploader_id;
  chat_id = a.chat_id;
  object_key = a.object_key;
  file_url = a.file_url;
  file_type = a.file_type;
  file_size = a.file_size;
  file_name = a.file_name;
  encryption_key_enc = none;
  encryption_iv = none;
  confirmed = false;
  confirmed_at = none;
  created_at = now;
}

-- the foreign keys of a new row
abbrev pub refers : AttachmentRow → Store → Bool
refers r s =
    any (λ u. u == r.uploader_id) s.inbox.chat.users
    && elim r.chat_id [ none ↦ true | some c ↦ any (λ (d : ChatRow). d.id == c) s.inbox.chat.chats ]

unfoldable pub insert_attachment : AttachmentRow → Store → Result (Unit {0}) × Store
insert_attachment r s =
    if any (λ (a : AttachmentRow). a.id == r.id) s.attachments
    then (err (already_exists "Resource already exists"), s)
    else if not (refers r s)
    then (err (validation "Referenced resource not found"), s)
    else (ok tt, record s { attachments = r ∷ s.attachments })

-- `if let Some(chat_id) = input.chat_id`
unfoldable pub ensure_member_of : ℕ → Option ℕ → Store → Result (Unit {0}) × Store
ensure_member_of u none = pure tt
ensure_member_of u (some c) = at_inbox (ensure_active_membership_pool u c)

unfoldable pub create_pending_attachment :
    ℕ → NewPendingAttachment → Store → Result AttachmentRow × Store
create_pending_attachment now input = do
  ensure_member_of input.uploader_id input.chat_id
  insert_attachment (new_row now input)
  pure (new_row now input)

-- `id = i AND uploader_id = u AND confirmed = FALSE`
abbrev pub is_pending : ℕ → ℕ → AttachmentRow → Bool
is_pending i u r = r.id == i && r.uploader_id == u && not r.confirmed

unfoldable pub get_pending_attachment_for_user :
    ℕ → ℕ → Store → Result (Option AttachmentRow) × Store
get_pending_attachment_for_user attachment_id uploader_id =
    gets (λ s. find? (is_pending attachment_id uploader_id) s.attachments)

pub record ConfirmAttachmentInput : Type 0 where
  pub attachment_id : ℕ
  pub message_id : ℕ
  pub uploader_id : ℕ
  pub encryption_key_enc : Option String
  pub encryption_iv : Option String

-- `chat_id = c`, which is not true of NULL
abbrev pub is_pending_in : ConfirmAttachmentInput → ℕ → AttachmentRow → Bool
is_pending_in input c r =
    is_pending input.attachment_id input.uploader_id r
    && elim r.chat_id [ none ↦ false | some d ↦ d == c ]

abbrev pub confirmed : ℕ → ConfirmAttachmentInput → AttachmentRow → AttachmentRow
confirmed now input r = record r {
  message_id = some input.message_id;
  encryption_key_enc = input.encryption_key_enc;
  encryption_iv = input.encryption_iv;
  confirmed = true;
  confirmed_at = some now;
}

abbrev pub is_live_message : ℕ → Message → Bool
is_live_message i m = m.id == i && is_none m.deleted_at

-- a transaction, whose only write is the last step but one
unfoldable pub confirm_attachment : ℕ → ConfirmAttachmentInput → Store → Result (Unit {0}) × Store
confirm_attachment now input = do
  found ← gets (λ s. find? (is_live_message input.message_id) s.inbox.messages)
  chat_id ← ok_or (Option.map (λ (m : Message). m.chat_id) found) (not_found "message not found")
  at_inbox (ensure_active_membership input.uploader_id chat_id)
  updated ← gets (λ s. any (is_pending_in input chat_id) s.attachments)
  modify (λ s. record s {
    attachments = update_where (is_pending_in input chat_id) (confirmed now input) s.attachments;
  })
  throw_if (not updated) (not_found "pending attachment not found for message")
