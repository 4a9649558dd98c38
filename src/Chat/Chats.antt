-- ===== src/Chat/Chats.antt =====
-- Creating, reading, changing and deleting chats: the chat queries of `PostgresChatRepository`
-- (crates/infrastructure/src/repositories/chat.rs). `now` is `NOW()`, `id` the id of a new row.
pub mod Creation
pub mod Members
pub mod Pairs
pub mod Updates
use mesty_api.Common.{
  ℕ, Bool, true, false, String, Option, none, some, List, [], ◌∷◌, ◌&&◌, ◌||◌, ◌==◌, is_none,
  is_some, not, any, all, find?, if◌then◌else◌, str_eq, update_where, select_where, map, coalesce,
}
use mathlib.Core.Option
use mesty_api.DomainError.{
  DomainError, validation, not_found, already_exists, internal, Result, pure, gets, modify,
  throw_if, ok_or, ◌>>=◌, ◌>>◌,
}
use mesty_api.Chat.ChatType
use mesty_api.Chat.ChatType.{ChatType, private_chat, group, channel, self_chat}
use mesty_api.Chat.Role.{Role, member, owner, same}
use mesty_api.Chat.Store.{
  ChatRow, Participant, Store, is_at, is_active, is_live, is_private, has_link,
}

pub record Chat : Type 0 where
  pub id : ℕ
  pub chat_type : ChatType
  pub name : Option String
  pub description : Option String
  pub avatar_url : Option String
  pub created_by : Option ℕ
  pub created_at : ℕ

-- `row.map(…).transpose()`: the type is read back from its text.
unfoldable pub to_chat : Option ChatRow → Store → Result (Option Chat) × Store
to_chat none = pure none
to_chat (some r) = do
  parsed_type ←
      ok_or (ChatType.from_db_str (ChatType.as_db_str r.chat_type)) (internal "invalid chat type")
  pure (
      some (record {
        id = r.id;
        chat_type = parsed_type;
        name = r.name;
        description = r.description;
        avatar_url = r.avatar_url;
        created_by = r.created_by;
        created_at = r.created_at;
      }))

-- the join of a live chat with an active participation
abbrev pub joined_row : ℕ → ℕ → Store → Option ChatRow
joined_row user_id chat_id s =
    find? (λ r. is_live chat_id r && any (is_active chat_id user_id) s.participants) s.chats

unfoldable pub get_chat_for_user : ℕ → ℕ → Store → Result (Option Chat) × Store
get_chat_for_user user_id chat_id = do row ← gets (joined_row user_id chat_id); to_chat row

unfoldable pub find_chat_by_slug : String → Store → Result (Option Chat) × Store
find_chat_by_slug slug = do
  row ← gets (λ s. find? (λ r. has_link slug r && is_none r.deleted_at) s.chats)
  to_chat row

-- `get_chat_for_user(…).await?.ok_or_else(…)`
unfoldable pub chat_of_creator : ℕ → ℕ → Store → Result Chat × Store
chat_of_creator creator_id chat_id = do
  chat ← get_chat_for_user creator_id chat_id
  ok_or chat (not_found "chat not found")

abbrev pub shared_private : ℕ → ℕ → Store → ChatRow → Bool
shared_private a b s r =
    is_private r
    && is_none r.deleted_at
    && any (is_active r.id a) s.participants
    && any (is_active r.id b) s.participants

abbrev pub new_chat : ℕ → ℕ → ChatType → Option String → ℕ → ChatRow
new_chat id now type name creator_id = record {
  id = id;
  chat_type = type;
  name = name;
  description = none;
  avatar_url = none;
  created_by = some creator_id;
  invite_link = none;
  created_at = now;
  updated_at = now;
  deleted_at = none;
}

abbrev pub new_participant : ℕ → ℕ → ℕ → Role → ℕ → Participant
new_participant now chat_id user_id role added_by = record {
  chat_id = chat_id;
  user_id = user_id;
  role = role;
  encryption_key_enc = none;
  added_by = some added_by;
  joined_at = now;
  left_at = none;
}

abbrev pub knows : ℕ → Store → Bool
knows u s = any (λ v. v == u) s.users

-- The transaction of `create_private_chat`: its constraints are tested before anything is kept.
unfoldable pub insert_private_chat : ℕ → ℕ → ℕ → ℕ → Store → Result ℕ × Store
insert_private_chat id now creator_id participant_id = do
  throw_if (← gets (λ s. any (λ r. r.id == id) s.chats)) (already_exists "Resource already exists")
  throw_if (creator_id == participant_id) (already_exists "Resource already exists")
  throw_if (← gets (λ s. not (knows creator_id s && knows participant_id s)))
      (validation "Referenced resource not found")
  modify (λ s. record s {
    chats = new_chat id now private_chat none creator_id ∷ s.chats;
    participants =
        new_participant now id creator_id member creator_id
        ∷ new_participant now id participant_id member creator_id
        ∷ s.participants;
  })
  pure id

-- `existing`, or a new chat
unfoldable pub existing_or_new : ℕ → ℕ → ℕ → ℕ → Option ChatRow → Store → Result ℕ × Store
existing_or_new id now creator_id participant_id (some r) = pure r.id
existing_or_new id now creator_id participant_id none =
    insert_private_chat id now creator_id participant_id

unfoldable pub create_private_chat : ℕ → ℕ → ℕ → ℕ → Store → Result Chat × Store
create_private_chat id now creator_id participant_id = do
  existing ← gets (λ s. find? (shared_private creator_id participant_id s) s.chats)
  chat_id ← existing_or_new id now creator_id participant_id existing
  chat_of_creator creator_id chat_id

-- `INSERT … SELECT … WHERE p.user_id <> $2 ON CONFLICT DO NOTHING`
unfoldable pub insert_members : ℕ → ℕ → ℕ → List ℕ → List Participant → List Participant
insert_members now chat_id creator_id [] ps = ps
insert_members now chat_id creator_id (u ∷ us) ps = insert_members now chat_id creator_id us (
    if u == creator_id || any (is_at chat_id u) ps
    then ps
    else new_participant now chat_id u member creator_id ∷ ps)

unfoldable pub create_group_chat : ℕ → ℕ → ℕ → String → List ℕ → Store → Result Chat × Store
create_group_chat id now creator_id name participant_ids = do
  throw_if (str_eq name "") (validation "Validation constraint failed")
  throw_if (← gets (λ s. any (λ r. r.id == id) s.chats)) (already_exists "Resource already exists")
  throw_if (← gets (λ s. not (knows creator_id s && all (λ u. knows u s) participant_ids)))
      (validation "Referenced resource not found")
  modify (λ s. record s {
    chats = new_chat id now group (some name) creator_id ∷ s.chats;
    participants =
        insert_members now id creator_id participant_ids
          (new_participant now id creator_id owner creator_id ∷ s.participants);
  })
  chat_of_creator creator_id id

-- `type NOT IN ('group', 'channel') OR (name IS NOT NULL AND name <> '')`
abbrev pub has_valid_name : ChatType → Option String → Bool
has_valid_name private_chat _ = true
has_valid_name self_chat _ = true
has_valid_name group name = elim name [ none ↦ false | some n ↦ not (str_eq n "") ]
has_valid_name channel name = elim name [ none ↦ false | some n ↦ not (str_eq n "") ]

unfoldable pub update_chat :
    ℕ → ℕ → ℕ → Option String → Option String → Option String → Store → Result Chat × Store
update_chat now user_id chat_id name description avatar_url = do
  row ← ok_or (← gets (joined_row user_id chat_id)) (not_found "Resource not found")
  let new_name = coalesce name row.name
  let new_desc = coalesce description row.description
  let new_avatar = coalesce avatar_url row.avatar_url
  throw_if (not (has_valid_name row.chat_type new_name)) (validation "Validation constraint failed")
  modify (λ s. record s {
    chats =
        update_where (λ r. r.id == chat_id)
          (λ r. record r {
            name = new_name;
            description = new_desc;
            avatar_url = new_avatar;
            updated_at = now;
          })
          s.chats;
  })
  parsed_type ←
      ok_or (ChatType.from_db_str (ChatType.as_db_str row.chat_type)) (internal "invalid chat type")
  pure (record {
    id = chat_id;
    chat_type = parsed_type;
    name = new_name;
    description = new_desc;
    avatar_url = new_avatar;
    created_by = row.created_by;
    created_at = now;
  })

-- `UPDATE chat_participants SET left_at = NOW() WHERE chat_id = … AND user_id = …`
abbrev pub leave : ℕ → ℕ → ℕ → Store → Store
leave now chat_id user_id s = record s {
  participants =
      update_where (is_at chat_id user_id) (λ p. record p { left_at = some now }) s.participants;
}

-- `UPDATE chats SET deleted_at = NOW()`; the trigger sets `updated_at`
abbrev pub mark_deleted : ℕ → ℕ → Store → Store
mark_deleted now chat_id s = record s {
  chats =
      update_where (λ r. r.id == chat_id)
        (λ r. record r { deleted_at = some now; updated_at = now }) s.chats;
}

unfoldable pub delete_chat : ℕ → ℕ → ℕ → Store → Result (Unit {0}) × Store
delete_chat now user_id chat_id = do
  row ←
      ok_or (← gets (joined_row user_id chat_id)) (not_found "chat not found or not a participant")
  is_owner ← gets (λ s. any (λ p. is_at chat_id user_id p && same p.role owner) s.participants)
  modify (
      if is_private row || not is_owner
      then leave now chat_id user_id
      else mark_deleted now chat_id)
