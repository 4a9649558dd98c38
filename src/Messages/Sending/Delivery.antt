-- ===== src/Messages/Sending/Delivery.antt =====
-- When a message is sent, and the rows that it leaves: send_message of
-- crates/infrastructure/src/repositories/chat.rs, written out row by row.
use mesty_api.Common.{
  ℕ, ◌+◌, ◌≡◌, Bool, true, false, none, some, List, ◌∷◌, ◌++◌, ◌&&◌, ◌||◌, ◌==◌, not, any, count,
  find?, is_none, is_some, str_eq, if◌then◌else◌, All,
}
use mesty_api.Chat.ChatType
use mesty_api.Chat.ChatType.{ChatType, private_chat}
use mesty_api.Chat.Store.{ChatRow, Participant}
use mesty_api.Messages.Store.{Message, StatusRow, Store}
use mesty_api.Messages.Queries.{NewMessage}
use mesty_api.Messages.Statuses.{IsSent}

-- the row of a message that user u sends to chat c
abbrev pub sent_row : ℕ → ℕ → ℕ → ℕ → NewMessage → Message
sent_row id now u c m = record {
  id = id;
  chat_id = c;
  sender_id = some u;
  reply_to_id = m.reply_to_id;
  content_encrypted = m.content_encrypted;
  content_iv = m.content_iv;
  message_type = m.message_type;
  metadata = m.metadata;
  is_forwarded = m.is_forwarded;
  created_at = now;
  edited_at = none;
  deleted_at = none;
}

-- another active participant of the chat blocks the user or is blocked by the user
abbrev pub is_cut_off : ℕ → ℕ → Store → Bool
is_cut_off u c s =
    any
      (λ (p : Participant).
        p.chat_id == c
        && not (p.user_id == u)
        && is_none p.left_at
        && any
            (λ b.
              b.blocker_id == u && b.blocked_id == p.user_id
              || b.blocked_id == u && b.blocker_id == p.user_id)
            s.user_blocks)
      s.chat.participants

abbrev pub takes_part : ℕ → ℕ → Store → Bool
takes_part u c s =
    any (λ (p : Participant). p.chat_id == c && p.user_id == u && is_none p.left_at)
      s.chat.participants

-- only the two users of a private chat are cut off by a block
abbrev pub is_refused : ℕ → ℕ → ChatRow → Store → Bool
is_refused u c r s = elim r.chat_type [ private_chat ↦ is_cut_off u c s | _ ↦ false ]

-- The enumeration has the type, the two checks of the table hold, the id is new, and the chat, the user
-- and the message that is replied to are there.
abbrev pub meets_constraints : ℕ → ℕ → ℕ → NewMessage → Store → Bool
meets_constraints id u c m s =
    (str_eq m.message_type "text"
      || str_eq m.message_type "image"
      || str_eq m.message_type "video"
      || str_eq m.message_type "audio"
      || str_eq m.message_type "file"
      || str_eq m.message_type "location"
      || str_eq m.message_type "contact"
      || str_eq m.message_type "sticker"
      || str_eq m.message_type "deleted"
      || str_eq m.message_type "system")
    && (not (str_eq m.message_type "text") || is_some m.content_encrypted && is_some m.content_iv)
    && (if is_none m.content_encrypted then is_none m.content_iv else not (is_none m.content_iv))
    && not (any (λ (o : Message). o.id == id) s.messages)
    && any (λ (r : ChatRow). r.id == c) s.chat.chats
    && any (λ v. v == u) s.chat.users
    && elim m.reply_to_id [ none ↦ true | some r ↦ any (λ (n : Message). n.id == r) s.messages ]

-- The sender takes part in a live chat, which is not a private one with a user who blocks the sender or
-- whom the sender blocks, a text has its content and its vector, and the row meets the constraints.
pub record IsAllowed (id now u c : ℕ) (m : NewMessage) (s : Store) : Type 0 where
  pub member : takes_part u c s ≡ true
  pub room : ChatRow
  pub live : find? (λ (r : ChatRow). r.id == c && is_none r.deleted_at) s.chat.chats ≡ some room
  pub connected : is_refused u c room s ≡ false
  pub filled :
      (str_eq m.message_type "text" && (is_none m.content_encrypted || is_none m.content_iv))
      ≡ false
  pub valid : meets_constraints id u c m s ≡ true

-- The message is in front of the rows of before, and of the statuses the rows of before are kept behind
-- new ones, which are those of the message, not read, one for each active participant who has none.
pub record IsDelivered (id now u c : ℕ) (m : NewMessage) (s : Store) (x : Message) (t : Store)
    : Type 0 where
  pub answer : x ≡ sent_row id now u c m
  pub gained : List StatusRow
  pub stored :
      t
      ≡ record s { messages = sent_row id now u c m ∷ s.messages; statuses = gained ++ s.statuses }
  pub each : All (IsSent now id) gained
  pub counted :
      (v : ℕ)
      → count (λ (r : StatusRow). r.message_id == id && r.user_id == v) (gained ++ s.statuses)
        ≡ count (λ (r : StatusRow). r.message_id == id && r.user_id == v) s.statuses
          + (if takes_part v c s
                && not (any (λ (r : StatusRow). r.message_id == id && r.user_id == v) s.statuses)
              then 1
              else 0)
