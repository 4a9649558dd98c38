-- ===== src/Chat/Handlers.antt =====
-- The group endpoints: crates/api/src/handlers/groups/handlers.rs. A handler takes the authenticated
-- user, the path and the body, and returns a response or an error; what it publishes on Redis is
-- put in front of `published`.
use mesty_api.Common.{
  ℕ, Bool, true, String, Option, none, some, List, [], ◌∷◌, ◌==◌, is_none, length, if◌then◌else◌,
}
use mesty_api.DomainError.{
  validation, not_found, internal, Result, pure, modify, throw_if, ok_or, ◌>>=◌, ◌>>◌,
}
use mesty_api.Chat.Role
use mesty_api.Chat.Role.{Role, owner, same}
use mesty_api.Chat.Store.{Store, chat_event, user_event, publish}
use mesty_api.Chat.Chats
use mesty_api.Chat.Participants
use mesty_api.Chat.Participants.{ParticipantDetail}

-- the response bodies of crates/api/src/handlers/groups/dto.rs
pub data Body : Type 0 where
  participants : List ParticipantDetail → (count : ℕ) → Body
  participant_added : ParticipantDetail → (key_rotation_required : Bool) → Body
  participant_removed : (removed key_rotation_required : Bool) → Body
  role_updated : ParticipantDetail → Body
  invite_link : String → Body
  invite_link_deleted : (deleted : Bool) → Body
  group_joined : ParticipantDetail → (key_rotation_required : Bool) → Body
  key_rotated : (updated_count : ℕ) → Body
  ownership_transferred : (transferred : Bool) → Body

pub record Response : Type 0 where
  pub code : ℕ
  pub body : Body

abbrev pub respond : ℕ → Body → Store → Result Response × Store
respond code body = pure (record { code = code; body = body })

unfoldable pub list_participants : ℕ → ℕ → Store → Result Response × Store
list_participants auth chat_id = do
  ps ← Participants.get_participants_detail auth chat_id
  respond 200 (participants ps (length ps))

unfoldable pub add_participant : ℕ → ℕ → ℕ → ℕ → Option String → Store → Result Response × Store
add_participant now auth chat_id user_id encryption_key_enc = do
  throw_if (user_id == auth) (validation "cannot add yourself as a participant")
  p ← Participants.add_participant now chat_id auth user_id encryption_key_enc
  modify (publish (chat_event chat_id "participant_added" (p.user_id ∷ [])))
  modify (publish (user_event p.user_id "added_to_group" (chat_id ∷ [])))
  respond 201 (participant_added p (is_none encryption_key_enc))

unfoldable pub remove_participant : ℕ → ℕ → ℕ → ℕ → Store → Result Response × Store
remove_participant now auth chat_id target_id = do
  key_rotation_required ← Participants.remove_participant now chat_id auth target_id
  modify (publish (chat_event chat_id "participant_removed" (target_id ∷ [])))
  modify (
      if key_rotation_required
      then publish (chat_event chat_id "key_rotation_required" (chat_id ∷ []))
      else λ s. s)
  respond 200 (participant_removed true key_rotation_required)

unfoldable pub update_participant_role : ℕ → ℕ → ℕ → String → Store → Result Response × Store
update_participant_role auth chat_id target_id role = do
  new_role ← ok_or (Role.from_db_str role) (validation "invalid role")
  throw_if (same new_role owner) (validation "cannot promote to owner via this endpoint")
  p ← Participants.update_participant_role chat_id auth target_id new_role
  modify (publish (chat_event chat_id "participant_role_updated" (target_id ∷ [])))
  respond 200 (role_updated p)

unfoldable pub create_invite_link : ℕ → String → ℕ → ℕ → Store → Result Response × Store
create_invite_link now random auth chat_id = do
  link ← Participants.set_invite_link now random chat_id auth none
  slug ← ok_or link (internal "failed to generate invite link")
  respond 200 (invite_link slug)

unfoldable pub delete_invite_link : ℕ → String → ℕ → ℕ → Store → Result Response × Store
delete_invite_link now random auth chat_id = do
  Participants.set_invite_link now random chat_id auth (some "")
  respond 200 (invite_link_deleted true)

unfoldable pub join_by_slug : ℕ → ℕ → String → Store → Result Response × Store
join_by_slug now auth slug = do
  found ← Chats.find_chat_by_slug slug
  chat ← ok_or found (not_found "invite link not found or expired")
  p ← Participants.join_by_invite now chat.id auth
  modify (publish (chat_event chat.id "participant_added" (p.user_id ∷ [])))
  respond 201 (group_joined p true)

unfoldable pub rotate_group_key : ℕ → ℕ → List (ℕ × String) → Store → Result Response × Store
rotate_group_key auth chat_id keys = do
  throw_if (length keys == 0) (validation "keys list cannot be empty")
  updated_count ← Participants.rotate_group_key chat_id auth keys
  modify (publish (chat_event chat_id "key_rotated" (chat_id ∷ [])))
  respond 200 (key_rotated updated_count)

unfoldable pub transfer_ownership : ℕ → ℕ → ℕ → Store → Result Response × Store
transfer_ownership auth chat_id new_owner_id = do
  throw_if (new_owner_id == auth) (validation "new owner must be a different user")
  Participants.transfer_ownership chat_id auth new_owner_id
  modify (publish (chat_event chat_id "ownership_transferred" (auth ∷ new_owner_id ∷ [])))
  respond 200 (ownership_transferred true)
