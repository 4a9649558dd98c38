-- ===== src/Messages/Handlers.antt =====
-- The message endpoints of crates/api/src/handlers/chats/handlers.rs. `text` is the text of a UUID,
-- `is_online` the presence keys of Redis, `percent_decode` is urlencoding, and metrics are left out.
use mesty_api.Common.{
  ℕ, Bool, true, false, String, Option, none, some, List, [], ◌∷◌, ◌||◌, ◌==◌, not, if◌then◌else◌,
  ltb, concat, unwrap_or, find?,
}
use mathlib.Core.Option
use mesty_api.DomainError.{validation, Result, pure, gets, modify, ok_or, ◌>>=◌, ◌>>◌}
use mesty_api.Otp.{check_rate_limit}
use mesty_api.Chat.Store as Chats
use mesty_api.Chat.Store.{Event, chat_event, user_event}
use mesty_api.Chat.Participants.{verify_participant}
use mesty_api.Messages.Store.{Message, Reaction, PushJob, Store, on_chats}
use mesty_api.Messages.Queries as Queries
use mesty_api.Messages.Queries.{NewMessage, verify_message_in_chat, get_chat_participants}
use mesty_api.Messages.Settings as Settings
use mesty_api.Messages.Settings.{
  ChatSettings, UpdateChatSettings, no_settings, to_settings, is_settings_of,
}

-- the response bodies of crates/api/src/handlers/chats/dto.rs
pub data Body : Type 0 where
  message : Message → Body
  too_many : Body
  messages_read : (updated_count : ℕ) → Body
  reaction_added : Reaction → Body
  reaction_removed : (removed : Bool) → Body
  message_edited : (id chat_id : ℕ) (content iv : Option String) (edited_at : ℕ) → Body
  message_deleted : (deleted : Bool) → Body
  chat_settings : ChatSettings → Body

pub record Response : Type 0 where
  pub code : ℕ
  pub body : Body

abbrev pub respond : ℕ → Body → Store → Result Response × Store
respond code body = pure (record { code = code; body = body })

abbrev pub publish : Event → Store → Store
publish e s = record s { chat = Chats.publish e s.chat }

-- `settings.is_muted || settings.muted_until.is_some_and(|until| until > now)`
abbrev pub is_muted_at : ℕ → ChatSettings → Bool
is_muted_at now c = c.is_muted || elim c.muted_until [ none ↦ false | some t ↦ ltb now t ]

-- `get_chat_settings(…).unwrap_or(None).unwrap_or_default()`
abbrev pub settings_of : ℕ → ℕ → Store → ChatSettings
settings_of u c s =
    unwrap_or (Option.map to_settings (find? (is_settings_of u c) s.settings)) no_settings

abbrev pub push_job : Message → ℕ → ℕ → PushJob
push_job m sender_id u = record {
  user_id = u;
  chat_id = m.chat_id;
  message_id = m.id;
  sender_id = sender_id;
}

-- one round of the loop over the participants
abbrev pub notify : (ℕ → Bool) → ℕ → Message → ℕ → ℕ → Store → Store
notify is_online now m sender_id u s =
    if u == sender_id
    then s
    else let t = publish (user_event u "new_message" (m.chat_id ∷ m.id ∷ sender_id ∷ [])) s in
      if is_online u || is_muted_at now (settings_of u m.chat_id s)
      then t
      else record t { pushed = push_job m sender_id u ∷ t.pushed }

unfoldable pub notify_all : (ℕ → Bool) → ℕ → Message → ℕ → List ℕ → Store → Store
notify_all is_online now m sender_id [] s = s
notify_all is_online now m sender_id (u ∷ us) s =
    notify_all is_online now m sender_id us (notify is_online now m sender_id u s)

unfoldable pub publish_message_event : (ℕ → Bool) → ℕ → Message → ℕ → Store → Store
publish_message_event is_online now m sender_id s =
    let t = publish (chat_event m.chat_id "new_message" (m.id ∷ sender_id ∷ [])) s in
    notify_all is_online now m sender_id (get_chat_participants m.chat_id t) t

unfoldable pub send_message :
    (ℕ → String) → (ℕ → Bool) → ℕ → ℕ → ℕ → ℕ → NewMessage → Store → Result Response × Store
send_message text is_online id now auth chat_id req = do
  let key : String = concat "msg:" (text auth)
  allowed ← gets (λ s. (check_rate_limit now key 15 10 s.redis).0)
  modify (λ s. record s { redis = (check_rate_limit now key 15 10 s.redis).1 })
  if not allowed then respond 429 too_many else do
    m ← Queries.send_message id now auth chat_id req
    modify (publish_message_event is_online now m auth)
    respond 201 (message m)

unfoldable pub mark_messages_read : ℕ → ℕ → ℕ → ℕ → Store → Result Response × Store
mark_messages_read now auth chat_id up_to = do
  on_chats (verify_participant auth chat_id)
  updated_count ← Queries.mark_messages_read now auth chat_id up_to
  modify (publish (chat_event chat_id "messages_read" (auth ∷ up_to ∷ [])))
  respond 200 (messages_read updated_count)

unfoldable pub add_reaction : ℕ → ℕ → ℕ → ℕ → ℕ → String → Store → Result Response × Store
add_reaction id now auth chat_id message_id reaction = do
  on_chats (verify_participant auth chat_id)
  verify_message_in_chat message_id chat_id
  r ← Queries.add_reaction id now message_id auth reaction
  modify (publish (chat_event chat_id "reaction" (message_id ∷ auth ∷ [])))
  respond 201 (reaction_added r)

unfoldable pub remove_reaction :
    (String → Option String) → ℕ → ℕ → ℕ → String → Store → Result Response × Store
remove_reaction percent_decode auth chat_id message_id emoji = do
  reaction ← ok_or (percent_decode emoji) (validation "invalid emoji encoding")
  on_chats (verify_participant auth chat_id)
  verify_message_in_chat message_id chat_id
  removed ← Queries.remove_reaction message_id auth reaction
  modify (λ s.
      if removed then publish (chat_event chat_id "reaction" (message_id ∷ auth ∷ [])) s else s)
  respond 200 (reaction_removed removed)

unfoldable pub edit_message :
    ℕ → ℕ → ℕ → ℕ → Option String → Option String → Store → Result Response × Store
edit_message now auth chat_id message_id content iv = do
  on_chats (verify_participant auth chat_id)
  m ← Queries.edit_message now auth message_id content iv
  respond 200 (
      message_edited m.id m.chat_id m.content_encrypted m.content_iv
        (unwrap_or m.edited_at m.created_at))

unfoldable pub delete_message : ℕ → ℕ → ℕ → ℕ → Store → Result Response × Store
delete_message now auth chat_id message_id = do
  on_chats (verify_participant auth chat_id)
  Queries.delete_message now auth message_id
  respond 200 (message_deleted true)

unfoldable pub update_chat_settings : ℕ → ℕ → UpdateChatSettings → Store → Result Response × Store
update_chat_settings auth chat_id req = do
  on_chats (verify_participant auth chat_id)
  settings ← Settings.update_chat_settings auth chat_id req
  respond 200 (chat_settings settings)
