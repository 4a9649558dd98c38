-- ===== src/Chat/Endpoints.antt =====
-- The chat endpoints create_chat, get_chat, update_chat and delete_chat of
-- crates/api/src/handlers/chats/handlers.rs.
use mesty_api.Common.{ℕ, Bool, true, String, Option, List, ◌==◌, is_empty, trim}
use mesty_api.DomainError.{validation, not_found, Result, pure, throw_if, ok_or, ◌>>=◌, ◌>>◌}
use mesty_api.Chat.ChatType
use mesty_api.Chat.Store.{Store}
use mesty_api.Chat.Chats
use mesty_api.Chat.Chats.{Chat, get_chat_for_user, create_private_chat, create_group_chat}

-- crates/api/src/handlers/chats/dto.rs
pub data CreateChatRequest : Type 0 where
  private_with : (participant_id : ℕ) → CreateChatRequest
  group_of : (name : String) (participant_ids : List ℕ) → CreateChatRequest

pub record ChatResponse : Type 0 where
  pub id : ℕ
  pub chat_type : String
  pub name : Option String
  pub avatar_url : Option String
  pub created_by : Option ℕ
  pub created_at : ℕ

pub record UpdateChatResponse : Type 0 where
  pub id : ℕ
  pub chat_type : String
  pub name : Option String
  pub description : Option String
  pub avatar_url : Option String
  pub updated_at : ℕ

unfoldable pub chat_to_response : Chat → ChatResponse
chat_to_response chat = record {
  id = chat.id;
  chat_type = ChatType.as_db_str chat.chat_type;
  name = chat.name;
  avatar_url = chat.avatar_url;
  created_by = chat.created_by;
  created_at = chat.created_at;
}

unfoldable pub new_chat_of : ℕ → ℕ → ℕ → CreateChatRequest → Store → Result Chat × Store
new_chat_of id now auth (private_with participant_id) = do
  throw_if (participant_id == auth) (validation "participant_id cannot be the authenticated user")
  create_private_chat id now auth participant_id
new_chat_of id now auth (group_of name participant_ids) = do
  throw_if (is_empty (trim name)) (validation "group name cannot be empty")
  create_group_chat id now auth (trim name) participant_ids

unfoldable pub create_chat : ℕ → ℕ → ℕ → CreateChatRequest → Store → Result ChatResponse × Store
create_chat id now auth req = do chat ← new_chat_of id now auth req; pure (chat_to_response chat)

unfoldable pub get_chat : ℕ → ℕ → Store → Result ChatResponse × Store
get_chat auth chat_id = do
  found ← get_chat_for_user auth chat_id
  chat ← ok_or found (not_found "chat not found")
  pure (chat_to_response chat)

unfoldable pub update_chat :
    ℕ
    → ℕ
    → ℕ
    → Option String
    → Option String
    → Option String
    → Store
    → Result UpdateChatResponse × Store
update_chat now auth chat_id name description avatar_url = do
  chat ← Chats.update_chat now auth chat_id name description avatar_url
  pure (record {
    id = chat.id;
    chat_type = ChatType.as_db_str chat.chat_type;
    name = chat.name;
    description = chat.description;
    avatar_url = chat.avatar_url;
    updated_at = chat.created_at;
  })

-- whether the chat was deleted
unfoldable pub delete_chat : ℕ → ℕ → ℕ → Store → Result Bool × Store
delete_chat now auth chat_id = do Chats.delete_chat now auth chat_id; pure true
