-- ===== src/Chat/Participants.antt =====
-- Group and channel management of `PostgresChatRepository`
-- (crates/infrastructure/src/repositories/chat.rs). `now` is `NOW()`, and `slug` the random text.
pub mod Roles
pub mod Removal
pub mod Promotion
pub mod Insertion
pub mod Admission
pub mod Joining
pub mod Keys
pub mod Invites
use mesty_api.Common.{
  ℕ, ◌+◌, Bool, true, false, String, Option, none, some, List, [], ◌∷◌, ◌&&◌, ◌||◌, ◌==◌, is_none,
  is_some, not, any, find?, count, if◌then◌else◌, str_eq, update_where, select_where, order_by, map,
}
use mathlib.Core.Option
use mesty_api.DomainError.{
  DomainError, validation, not_found, already_exists, internal, unauthorized, Result, pure, gets,
  modify, throw_if, ok_or, ◌>>=◌, ◌>>◌,
}
use mesty_api.Chat.Role
use mesty_api.Chat.Role.{Role, member, admin, owner, lt, le, same}
use mesty_api.Chat.Store.{
  ChatRow, Participant, Store, is_at, is_active, is_live, insert_participant, is_private, has_link,
}

pub record ParticipantDetail : Type 0 where
  pub user_id : ℕ
  pub chat_id : ℕ
  pub role : Role
  pub encryption_key_enc : Option String
  pub added_by : Option ℕ
  pub joined_at : ℕ

-- The row as it is returned: `role::text` and `from_db_str`.
unfoldable pub to_detail : Participant → Store → Result ParticipantDetail × Store
to_detail p = do
  role ← ok_or (Role.from_db_str (Role.as_db_str p.role)) (internal "invalid role")
  pure (record {
    user_id = p.user_id;
    chat_id = p.chat_id;
    role = role;
    encryption_key_enc = p.encryption_key_enc;
    added_by = p.added_by;
    joined_at = p.joined_at;
  })

unfoldable pub get_participant_role : ℕ → ℕ → Store → Result (Option Role) × Store
get_participant_role user_id chat_id = do
  row ← gets (λ s. find? (is_active chat_id user_id) s.participants)
  pure (Option.bind (Option.map (λ p. Role.as_db_str p.role) row) Role.from_db_str)

-- `get_participant_role(…).await?.ok_or_else(|| Unauthorized("not a member of this chat"))`
unfoldable pub actor_role : ℕ → ℕ → Store → Result Role × Store
actor_role user_id chat_id = do
  role ← get_participant_role user_id chat_id
  ok_or role (unauthorized "not a member of this chat")

unfoldable pub verify_participant : ℕ → ℕ → Store → Result (Unit {0}) × Store
verify_participant user_id chat_id = do
  exists ←
      gets (λ s. any (is_active chat_id user_id) s.participants && any (is_live chat_id) s.chats)
  throw_if (not exists) (not_found "chat not found or not a participant")

unfoldable pub collect_details : List Participant → Store → Result (List ParticipantDetail) × Store
collect_details [] = pure []
collect_details (p ∷ ps) = do d ← to_detail p; ds ← collect_details ps; pure (d ∷ ds)

unfoldable pub get_participants_detail : ℕ → ℕ → Store → Result (List ParticipantDetail) × Store
get_participants_detail actor_id chat_id = do
  verify_participant actor_id chat_id
  rows ← gets (λ s. select_where (λ p. p.chat_id == chat_id && is_none p.left_at) s.participants)
  collect_details (order_by (λ p. p.joined_at) rows)

-- `INSERT … ON CONFLICT … RETURNING`
unfoldable pub insert_returning :
    Participant → (Participant → Participant) → Store → Result ParticipantDetail × Store
insert_returning new on_conflict = do
  insert_participant new on_conflict
  row ←
      ok_or (← gets (λ s. find? (is_at new.chat_id new.user_id) s.participants))
        (not_found "Resource not found")
  to_detail row

-- the row that `add_participant` inserts, and what it sets on a row that is there
abbrev pub added : ℕ → ℕ → ℕ → ℕ → Option String → Participant
added now chat_id actor_id user_id encryption_key_enc = record {
  chat_id = chat_id;
  user_id = user_id;
  role = member;
  encryption_key_enc = encryption_key_enc;
  added_by = some actor_id;
  joined_at = now;
  left_at = none;
}

abbrev pub readded : ℕ → ℕ → Option String → Participant → Participant
readded now actor_id encryption_key_enc p = record p {
  left_at = none;
  role = member;
  encryption_key_enc = encryption_key_enc;
  added_by = some actor_id;
  joined_at = now;
}

unfoldable pub add_participant :
    ℕ → ℕ → ℕ → ℕ → Option String → Store → Result ParticipantDetail × Store
add_participant now chat_id actor_id user_id encryption_key_enc = do
  role ← actor_role actor_id chat_id
  throw_if (lt role admin) (unauthorized "only admins and owners can add participants")
  chat ← ok_or (← gets (λ s. find? (is_live chat_id) s.chats)) (not_found "chat not found")
  throw_if (is_private chat) (validation "cannot add participants to a private chat")
  throw_if (← gets (λ s. any (is_active chat_id user_id) s.participants))
      (validation "user is already a member")
  insert_returning (added now chat_id actor_id user_id encryption_key_enc)
      (readded now actor_id encryption_key_enc)

unfoldable pub remove_participant : ℕ → ℕ → ℕ → ℕ → Store → Result Bool × Store
remove_participant now chat_id actor_id target_id = do
  role ← actor_role actor_id chat_id
  target_role ←
      ok_or (← get_participant_role target_id chat_id) (not_found "target user is not a member")
  throw_if (actor_id == target_id && same role owner)
      (validation "owner must transfer ownership before leaving")
  throw_if (not (actor_id == target_id) && le role target_role)
      (unauthorized "insufficient role to remove this participant")
  modify (λ s. record s {
    participants =
        update_where (is_active chat_id target_id) (λ p. record p { left_at = some now })
          s.participants;
  })
  pure true

unfoldable pub update_participant_role : ℕ → ℕ → ℕ → Role → Store → Result ParticipantDetail × Store
update_participant_role chat_id actor_id target_id new_role = do
  role ← actor_role actor_id chat_id
  target_role ←
      ok_or (← get_participant_role target_id chat_id) (not_found "target user is not a member")
  throw_if (le role target_role || le role new_role)
      (unauthorized "insufficient role to change this participant's role")
  modify (λ s. record s {
    participants =
        update_where (is_active chat_id target_id) (λ p. record p { role = new_role })
          s.participants;
  })
  row ←
      ok_or (← gets (λ s. find? (is_active chat_id target_id) s.participants))
        (not_found "Resource not found")
  to_detail row

-- `Some("") | None` asks for a random slug
pub new_slug : String → Option String → String
new_slug random none = random
new_slug random (some s) = if str_eq s "" then random else s

unfoldable pub set_invite_link :
    ℕ → String → ℕ → ℕ → Option String → Store → Result (Option String) × Store
unfolding new_slug
set_invite_link now random chat_id actor_id slug = do
  role ← actor_role actor_id chat_id
  throw_if (lt role admin) (unauthorized "only admins and owners can manage invite links")
  let link = new_slug random slug
  throw_if (← gets (λ s. any (λ r. r.id == chat_id && is_private r) s.chats))
      (validation "Validation constraint failed")
  throw_if (← gets (λ s. any (λ r. not (r.id == chat_id) && has_link link r) s.chats))
      (already_exists "Resource already exists")
  modify (λ s. record s {
    chats =
        update_where (λ r. r.id == chat_id)
          (λ r. record r { invite_link = some link; updated_at = now }) s.chats;
  })
  pure (some link)

-- the row that `join_by_invite` inserts, and what it sets on a row that is there
abbrev pub joined : ℕ → ℕ → ℕ → Participant
joined now chat_id user_id = record {
  chat_id = chat_id;
  user_id = user_id;
  role = member;
  encryption_key_enc = none;
  added_by = none;
  joined_at = now;
  left_at = none;
}

abbrev pub rejoined : ℕ → Participant → Participant
rejoined now p = record p { left_at = none; role = member; joined_at = now }

unfoldable pub join_by_invite : ℕ → ℕ → ℕ → Store → Result ParticipantDetail × Store
join_by_invite now chat_id user_id = do
  throw_if (← gets (λ s. any (is_active chat_id user_id) s.participants))
      (validation "already a member of this chat")
  insert_returning (joined now chat_id user_id) (rejoined now)

-- the loop of `rotate_group_key`, inside its transaction
pub rotate_from : ℕ → ℕ → List (ℕ × String) → List Participant → ℕ × List Participant
rotate_from chat_id updated [] ps = (updated, ps)
rotate_from chat_id updated ((member_id, new_key) ∷ keys) ps =
    rotate_from chat_id (updated + count (is_active chat_id member_id) ps) keys (
      update_where (is_active chat_id member_id)
        (λ p. record p { encryption_key_enc = some new_key }) ps)

unfoldable pub rotate_group_key : ℕ → ℕ → List (ℕ × String) → Store → Result ℕ × Store
unfolding rotate_from
rotate_group_key chat_id actor_id keys = do
  role ← actor_role actor_id chat_id
  throw_if (lt role admin) (unauthorized "only admins and owners can rotate the group key")
  before ← gets (λ s. s.participants)
  let after = rotate_from chat_id 0 keys before
  modify (λ s. record s { participants = after.1 })
  pure after.0

-- `UPDATE chat_participants SET role = … WHERE chat_id = … AND user_id = …`
abbrev pub set_role : ℕ → ℕ → Role → List Participant → List Participant
set_role chat_id user_id role = update_where (is_at chat_id user_id) (λ p. record p { role = role })

unfoldable pub transfer_ownership : ℕ → ℕ → ℕ → Store → Result (Unit {0}) × Store
transfer_ownership chat_id current_owner_id new_owner_id = do
  owner_role ← actor_role current_owner_id chat_id
  throw_if (not (same owner_role owner)) (unauthorized "only the owner can transfer ownership")
  new_role ←
      ok_or (← get_participant_role new_owner_id chat_id)
        (not_found "new owner is not a member of this chat")
  modify (λ s. record s {
    participants =
        set_role chat_id new_owner_id owner
          (set_role chat_id current_owner_id admin s.participants);
  })
