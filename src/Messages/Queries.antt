-- ===== src/Messages/Queries.antt =====
-- The queries of `PostgresChatRepository` on messages
-- (crates/infrastructure/src/repositories/chat.rs) and the function `mark_messages_read`
-- (migrations/014_message_read_function.sql). `now` is `NOW()`, and `id` the new id.
use mesty_api.Common.{
  ℕ, Bool, true, String, Option, none, some, List, [], ◌∷◌, ◌&&◌, ◌||◌, ◌==◌, is_none, not, any,
  find?, count, if◌then◌else◌, str_eq, leb, ltb, coalesce, update_where, delete_where, select_where,
  map,
}
use mathlib.Core.Option
use mesty_api.DomainError.{
  validation, not_found, already_exists, internal, unauthorized, Result, pure, gets, modify,
  throw_if, ok_or, ◌>>=◌, ◌>>◌,
}
use mesty_api.Keys.Store.{Block}
use mesty_api.Chat.ChatType
use mesty_api.Chat.Store.{Participant, is_active, is_live}
use mesty_api.Messages.Store.{
  Message, sent, read, StatusRow, Reaction, Store, is_own, is_from_other, is_read, is_message_type,
  has_content, is_consistent,
}

-- `ensure_active_membership`: the text of the chat's type
unfoldable pub ensure_active_membership : ℕ → ℕ → Store → Result String × Store
ensure_active_membership user_id chat_id = do
  chat ← gets (λ s.
      if any (is_active chat_id user_id) s.chat.participants
      then find? (is_live chat_id) s.chat.chats
      else none)
  ok_or (Option.map (λ r. ChatType.as_db_str r.chat_type) chat)
      (not_found "chat not found or not a participant")

-- a block of one of the two users by the other
abbrev pub is_between : ℕ → ℕ → Block → Bool
is_between u v b = b.blocker_id == u && b.blocked_id == v || b.blocked_id == u && b.blocker_id == v

-- an active participant of the chat other than the sender who is blocked or blocks
abbrev pub is_apart : ℕ → ℕ → Store → Participant → Bool
is_apart sender_id chat_id s p =
    p.chat_id == chat_id
    && not (p.user_id == sender_id)
    && is_none p.left_at
    && any (is_between sender_id p.user_id) s.user_blocks

unfoldable pub ensure_not_blocked_in_private_chat : ℕ → ℕ → Store → Result (Unit {0}) × Store
ensure_not_blocked_in_private_chat sender_id chat_id = do
  blocked ← gets (λ s. any (is_apart sender_id chat_id s) s.chat.participants)
  throw_if blocked (unauthorized "cannot send messages in blocked private chat")

-- `if chat_type == "private"`
unfoldable pub ensure_not_blocked_in : ℕ → ℕ → String → Store → Result (Unit {0}) × Store
ensure_not_blocked_in sender_id chat_id chat_type =
    if str_eq chat_type "private"
    then ensure_not_blocked_in_private_chat sender_id chat_id
    else pure tt

pub record NewMessage : Type 0 where
  pub content_encrypted : Option String
  pub content_iv : Option String
  pub message_type : String
  pub reply_to_id : Option ℕ
  pub is_forwarded : Bool
  pub metadata : Option String

abbrev pub new_message : ℕ → ℕ → ℕ → ℕ → NewMessage → Message
new_message id now sender_id chat_id m = record {
  id = id;
  chat_id = chat_id;
  sender_id = some sender_id;
  reply_to_id = m.reply_to_id;
  content_encrypted = m.content_encrypted;
  content_iv = m.content_iv;
  message_type = m.message_type;
  metadata = m.metadata;
  is_forwarded = m.is_forwarded;
  created_at = now;
  edited_at = none;
  deleted_at = none;
}

-- the foreign keys of a new message
unfoldable pub refers : Message → Store → Bool
refers m s =
    any (λ r. r.id == m.chat_id) s.chat.chats
    && elim m.sender_id [ none ↦ true | some u ↦ any (λ v. v == u) s.chat.users ]
    && elim m.reply_to_id [ none ↦ true | some r ↦ any (λ (n : Message). n.id == r) s.messages ]

-- `INSERT INTO messages`: the cast to the enumeration, the checks, the keys
unfoldable pub insert_message : Message → Store → Result (Unit {0}) × Store
insert_message m = do
  throw_if (not (is_message_type m.message_type)) (internal "Database operation failed")
  throw_if (not (has_content m && is_consistent m)) (validation "Validation constraint failed")
  throw_if (← gets (λ s. any (λ (n : Message). n.id == m.id) s.messages))
      (already_exists "Resource already exists")
  throw_if (← gets (λ s. not (refers m s))) (validation "Referenced resource not found")
  modify (λ s. record s { messages = m ∷ s.messages })

-- `message_id = i AND user_id = u`
abbrev pub is_status : ℕ → ℕ → StatusRow → Bool
is_status i u r = r.message_id == i && r.user_id == u

-- `INSERT INTO message_status … SELECT … ON CONFLICT DO NOTHING`, over the rows of the participants
abbrev pub insert_statuses : ℕ → ℕ → ℕ → List Participant → List StatusRow → List StatusRow
insert_statuses now i c [] rows = rows
insert_statuses now i c (p ∷ ps) rows =
    let rest = insert_statuses now i c ps rows in
    if p.chat_id == c && is_none p.left_at && not (any (is_status i p.user_id) rest)
    then record { message_id = i; user_id = p.user_id; status = sent; updated_at = now } ∷ rest
    else rest

-- `message_type == "text" && (content_encrypted.is_none() || content_iv.is_none())`
unfoldable pub lacks_content : NewMessage → Bool
lacks_content m =
    str_eq m.message_type "text" && (is_none m.content_encrypted || is_none m.content_iv)

unfoldable pub send_message : ℕ → ℕ → ℕ → ℕ → NewMessage → Store → Result Message × Store
send_message id now sender_id chat_id m = do
  chat_type ← ensure_active_membership sender_id chat_id
  ensure_not_blocked_in sender_id chat_id chat_type
  throw_if (lacks_content m) (validation "text messages require content_encrypted and content_iv")
  insert_message (new_message id now sender_id chat_id m)
  modify
      (λ s. record s { statuses = insert_statuses now id chat_id s.chat.participants s.statuses })
  pure (new_message id now sender_id chat_id m)

-- `ensure_active_membership_pool`
unfoldable pub ensure_active_membership_pool : ℕ → ℕ → Store → Result (Unit {0}) × Store
ensure_active_membership_pool user_id chat_id = do
  exists ← gets (λ s.
      any (is_active chat_id user_id) s.chat.participants && any (is_live chat_id) s.chat.chats)
  throw_if (not exists) (not_found "chat not found or not a participant")

-- `m.id = i AND m.chat_id = c AND m.deleted_at IS NULL`
abbrev pub is_message_in : ℕ → ℕ → Message → Bool
is_message_in i c m = m.id == i && m.chat_id == c && is_none m.deleted_at

unfoldable pub verify_message_in_chat : ℕ → ℕ → Store → Result (Unit {0}) × Store
verify_message_in_chat message_id chat_id = do
  exists ← gets (λ s. any (is_message_in message_id chat_id) s.messages)
  throw_if (not exists) (not_found "message not found or not in chat")

abbrev pub edited : ℕ → Option String → Option String → Message → Message
edited now content iv m = record m {
  content_encrypted = coalesce content m.content_encrypted;
  content_iv = coalesce iv m.content_iv;
  edited_at = some now;
}

-- `UPDATE messages … WHERE id = $1 RETURNING …`, with its checks
unfoldable pub update_message : ℕ → (Message → Message) → Store → Result Message × Store
update_message i f = do
  row ← ok_or (← gets (λ s. find? (λ m. m.id == i) s.messages)) (not_found "Resource not found")
  throw_if (not (has_content (f row) && is_consistent (f row)))
      (validation "Validation constraint failed")
  modify (λ s. record s { messages = update_where (λ m. m.id == i) f s.messages })
  pure (f row)

unfoldable pub edit_message :
    ℕ → ℕ → ℕ → Option String → Option String → Store → Result Message × Store
edit_message now user_id message_id content iv = do
  row ←
      ok_or (← gets (λ s. find? (is_own message_id user_id) s.messages))
        (not_found "message not found or not authorized")
  ensure_active_membership_pool user_id row.chat_id
  throw_if (is_none content && is_none iv)
      (validation "content_encrypted and content_iv are required")
  update_message message_id (edited now content iv)

abbrev pub erased : ℕ → Message → Message
erased now m = record m {
  deleted_at = some now;
  content_encrypted = none;
  content_iv = none;
  message_type = "deleted";
}

unfoldable pub delete_message : ℕ → ℕ → ℕ → Store → Result (Unit {0}) × Store
delete_message now user_id message_id = do
  found ← gets (λ s. any (is_own message_id user_id) s.messages)
  modify (λ s. record s {
    messages = update_where (is_own message_id user_id) (erased now) s.messages;
  })
  throw_if (not found) (not_found "message not found or not authorized")

-- the messages whose status rows `mark_messages_read` updates
abbrev pub is_readable : ℕ → ℕ → ℕ → Store → Message → Bool
is_readable u c up_to s m =
    m.chat_id == c
    && is_from_other u m
    && any (is_active c u) s.chat.participants
    && leb m.created_at up_to
    && is_none m.deleted_at

abbrev pub is_marked : ℕ → ℕ → ℕ → Store → StatusRow → Bool
is_marked u c up_to s r =
    any (λ m. m.id == r.message_id && is_readable u c up_to s m) s.messages
    && r.user_id == u
    && (not (is_read r.status) || ltb up_to r.updated_at)

unfoldable pub mark_messages_read : ℕ → ℕ → ℕ → ℕ → Store → Result ℕ × Store
mark_messages_read now user_id chat_id up_to = do
  updated_count ← gets (λ s. count (is_marked user_id chat_id up_to s) s.statuses)
  modify (λ s. record s {
    statuses =
        update_where (is_marked user_id chat_id up_to s)
          (λ r. record r { status = read; updated_at = now }) s.statuses;
  })
  pure updated_count

-- the key of `message_reactions`
abbrev pub is_reaction : ℕ → ℕ → String → Reaction → Bool
is_reaction i u text r = r.message_id == i && r.user_id == u && str_eq r.reaction text

-- no row comes back after ON CONFLICT DO NOTHING
unfoldable pub add_reaction : ℕ → ℕ → ℕ → ℕ → String → Store → Result Reaction × Store
add_reaction id now message_id user_id text = do
  throw_if (← gets (λ s. any (is_reaction message_id user_id text) s.reactions))
      (not_found "Resource not found")
  throw_if (← gets (λ s. any (λ (r : Reaction). r.id == id) s.reactions))
      (already_exists "Resource already exists")
  throw_if
      (← gets (λ s. not (
        any (λ (m : Message). m.id == message_id) s.messages
        && any (λ v. v == user_id) s.chat.users)))
      (validation "Referenced resource not found")
  let row : Reaction = record {
    id = id;
    message_id = message_id;
    user_id = user_id;
    reaction = text;
    created_at = now;
  }
  modify (λ s. record s { reactions = row ∷ s.reactions })
  pure row

unfoldable pub remove_reaction : ℕ → ℕ → String → Store → Result Bool × Store
remove_reaction message_id user_id text = do
  found ← gets (λ s. any (is_reaction message_id user_id text) s.reactions)
  modify
      (λ s. record s { reactions = delete_where (is_reaction message_id user_id text) s.reactions })
  pure found

-- `get_chat_participants`
unfoldable pub get_chat_participants : ℕ → Store → List ℕ
get_chat_participants c s =
    map (λ p. p.user_id)
      (select_where (λ p. p.chat_id == c && is_none p.left_at) s.chat.participants)

-- the `unread_count` of a chat in `list_chats_for_user`
unfoldable pub unread_count : ℕ → ℕ → Store → ℕ
unread_count user_id chat_id s =
    count
      (λ r.
        r.user_id == user_id
        && any
            (λ (m : Message). m.id == r.message_id && m.chat_id == chat_id && is_none m.deleted_at)
            s.messages
        && not (is_read r.status))
      s.statuses
