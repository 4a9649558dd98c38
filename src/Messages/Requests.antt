-- ===== src/Messages/Requests.antt =====
-- The requests to the message endpoints of crates/api/src/handlers/chats/handlers.rs, each by an
-- authenticated user.
use mesty_api.Common.{ℕ, Bool, String, Option, List, [], ◌∷◌}
use mesty_api.Messages.Store.{Store}
use mesty_api.Messages.Queries.{NewMessage}
use mesty_api.Messages.Settings.{UpdateChatSettings}
use mesty_api.Messages.Handlers.{
  send_message, mark_messages_read, add_reaction, remove_reaction, edit_message, delete_message,
  update_chat_settings,
}

pub data Request : Type 0 where
  send : (id chat_id : ℕ) (req : NewMessage) → Request
  mark_read : (chat_id up_to : ℕ) → Request
  react : (id chat_id message_id : ℕ) (reaction : String) → Request
  unreact : (chat_id message_id : ℕ) (emoji : String) → Request
  edit : (chat_id message_id : ℕ) (content iv : Option String) → Request
  delete : (chat_id message_id : ℕ) → Request
  set : (chat_id : ℕ) (req : UpdateChatSettings) → Request

module _ (text : ℕ → String) (is_online : ℕ → Bool) (percent_decode : String → Option String) where
  -- the store after a request of a user at a time
  unfoldable pub serve : ℕ → ℕ → Request → Store → Store
  serve now auth (send id c req) s = (send_message text is_online id now auth c req s).1
  serve now auth (mark_read c up_to) s = (mark_messages_read now auth c up_to s).1
  serve now auth (react id c m reaction) s = (add_reaction id now auth c m reaction s).1
  serve now auth (unreact c m emoji) s = (remove_reaction percent_decode auth c m emoji s).1
  serve now auth (edit c m content iv) s = (edit_message now auth c m content iv s).1
  serve now auth (delete c m) s = (delete_message now auth c m s).1
  serve now auth (set c req) s = (update_chat_settings auth c req s).1

  unfoldable pub serve_all : List (ℕ × ℕ × Request) → Store → Store
  serve_all [] s = s
  serve_all ((now, auth, r) ∷ rs) s = serve_all rs (serve now auth r s)
