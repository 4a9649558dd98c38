-- ===== src/Chat/Store.antt =====
-- The tables `chats` and `chat_participants` (migrations/009_chats_and_settings.sql and
-- migrations/010_participants_and_messages.sql), and the events published on Redis. The columns
-- is_encrypted, max_members and disappearing_ttl, which no modelled query reads or sets, are left out.
use mesty_api.Common.{
  ℕ, Bool, false, String, Option, none, some, List, ◌∷◌, ◌&&◌, ◌==◌, is_none, not, any, count, leb,
  str_eq, upsert,
}
use mesty_api.DomainError.{validation, Result, gets, modify, throw_if, ◌>>=◌, ◌>>◌}
use mesty_api.Chat.ChatType
use mesty_api.Chat.ChatType.{ChatType, private_chat}
use mesty_api.Chat.Role.{Role}

pub record ChatRow : Type 0 where
  pub id : ℕ
  pub chat_type : ChatType
  pub name : Option String
  pub description : Option String
  pub avatar_url : Option String
  pub created_by : Option ℕ
  pub invite_link : Option String
  pub created_at : ℕ
  pub updated_at : ℕ
  pub deleted_at : Option ℕ

pub record Participant : Type 0 where
  pub chat_id : ℕ
  pub user_id : ℕ
  pub role : Role
  pub encryption_key_enc : Option String
  pub added_by : Option ℕ
  pub joined_at : ℕ
  pub left_at : Option ℕ

-- the channel, the type of the event, and the users and chats that its payload names
pub data Event : Type 0 where
  chat_event : (chat_id : ℕ) (event_type : String) (ids : List ℕ) → Event
  user_event : (user_id : ℕ) (event_type : String) (ids : List ℕ) → Event

pub record Store : Type 0 where
  pub users : List ℕ
  pub chats : List ChatRow
  pub participants : List Participant
  pub published : List Event

-- `chat_id = c AND user_id = u`
abbrev pub is_at : ℕ → ℕ → Participant → Bool
is_at c u p = p.chat_id == c && p.user_id == u

-- `chat_id = c AND user_id = u AND left_at IS NULL`
abbrev pub is_active : ℕ → ℕ → Participant → Bool
is_active c u p = is_at c u p && is_none p.left_at

-- `id = c AND deleted_at IS NULL`
abbrev pub is_live : ℕ → ChatRow → Bool
is_live c r = r.id == c && is_none r.deleted_at

-- `type::text = 'private'`
unfoldable pub is_private : ChatRow → Bool
is_private r = str_eq (ChatType.as_db_str r.chat_type) "private"

-- `invite_link = slug`, which is not true of NULL
abbrev pub has_link : String → ChatRow → Bool
has_link slug r = elim r.invite_link [ none ↦ false | some l ↦ str_eq l slug ]

abbrev pub publish : Event → Store → Store
publish e s = record s { published = e ∷ s.published }

-- `enforce_private_chat_limit`: a third active participant of a private chat
unfoldable pub private_chat_is_full : ℕ → Store → Bool
private_chat_is_full c s =
    any (λ r. r.id == c && is_private r) s.chats
    && leb 2 (count (λ p. p.chat_id == c && is_none p.left_at) s.participants)

-- One row into `chat_participants`: the trigger, then the update of the row that has the key, or the
-- foreign keys and the new row.
unfoldable pub insert_participant :
    Participant → (Participant → Participant) → Store → Result (Unit {0}) × Store
insert_participant new on_conflict = do
  throw_if (← gets (private_chat_is_full new.chat_id)) (validation "Validation constraint failed")
  throw_if
      (← gets (λ s.
        not (any (is_at new.chat_id new.user_id) s.participants)
        && not (any (λ r. r.id == new.chat_id) s.chats && any (λ u. u == new.user_id) s.users)))
      (validation "Referenced resource not found")
  modify (λ s. record s {
    participants = upsert (is_at new.chat_id new.user_id) new on_conflict s.participants;
  })
