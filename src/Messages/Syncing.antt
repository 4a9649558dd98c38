-- ===== src/Messages/Syncing.antt =====
-- The messages that a socket asks for after a pause: list_messages_since of
-- crates/infrastructure/src/repositories/chat.rs, and sync_messages_after and the arm SyncRequest of
-- crates/api/src/handlers/ws/handlers.rs.
pub mod Missed
use mesty_api.Common.{
  ℕ, Bool, String, Option, none, some, List, [], ◌&&◌, any, is_none, ltb, map, take, select_where,
  order_with,
}
use mesty_api.DomainError.{Result, ok, err, pure, gets, ◌>>=◌}
use mesty_api.Chat.Store.{is_active}
use mesty_api.Messages.Store.{Message, Store}

-- the WHERE clause: a live message after `since` in a chat that the user has not left
abbrev pub is_since : ℕ → ℕ → Store → Message → Bool
is_since u since s m =
    any (is_active m.chat_id u) s.chat.participants
    && ltb since m.created_at
    && is_none m.deleted_at

-- `ORDER BY m.created_at ASC`
abbrev pub is_older : Message → Message → Bool
is_older a b = ltb a.created_at b.created_at

-- the rows of the query without its limit
abbrev pub missed : ℕ → ℕ → Store → List Message
missed u since s = order_with is_older (select_where (is_since u since s) s.messages)

unfoldable pub list_messages_since : ℕ → ℕ → ℕ → Store → Result (List Message) × Store
list_messages_since u since limit = gets (λ s. take limit (missed u since s))

-- an entry of `sync_response`
pub record SyncedMessage : Type 0 where
  pub chat_id : ℕ
  pub message_id : ℕ
  pub sender_id : Option ℕ
  pub content_encrypted : Option String
  pub content_iv : Option String
  pub message_type : String
  pub created_at : ℕ

abbrev pub to_synced : Message → SyncedMessage
to_synced m = record {
  chat_id = m.chat_id;
  message_id = m.id;
  sender_id = m.sender_id;
  content_encrypted = m.content_encrypted;
  content_iv = m.content_iv;
  message_type = m.message_type;
  created_at = m.created_at;
}

unfoldable pub sync_messages_after : ℕ → ℕ → Store → Result (List SyncedMessage) × Store
sync_messages_after u since = do
  messages ← list_messages_since u since 100
  pure (map to_synced messages)

-- the messages of the answer to `SyncRequest`
unfoldable pub sync_request : ℕ → Option ℕ → Store → List SyncedMessage
sync_request u none s = []
sync_request u (some since) s = elim (sync_messages_after u since s).0 [ ok ms ↦ ms | err e ↦ [] ]
