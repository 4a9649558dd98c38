-- ===== src/Chat/Ownership/Requests.antt =====
-- The group endpoints of crates/api/src/handlers/groups/handlers.rs and the chat endpoints of
-- crates/api/src/handlers/chats/handlers.rs as requests that arrive one after another: every endpoint that
-- writes chats or participants.
use mesty_api.Common.{ℕ, String, Option, List, [], ◌∷◌}
use mesty_api.Chat.Store.{Store}
use mesty_api.Chat.Endpoints
use mesty_api.Chat.Endpoints.{CreateChatRequest}
use mesty_api.Chat.Handlers

-- a request with the authenticated user first; times and random texts are what the server reads
pub data Request : Type 0 where
  get_participants : (auth chat_id : ℕ) → Request
  post_participant : (auth now chat_id user_id : ℕ) (encryption_key_enc : Option String) → Request
  delete_participant : (auth now chat_id target_id : ℕ) → Request
  patch_role : (auth chat_id target_id : ℕ) (role : String) → Request
  post_link : (auth now chat_id : ℕ) (random : String) → Request
  delete_link : (auth now chat_id : ℕ) (random : String) → Request
  post_join : (auth now : ℕ) (slug : String) → Request
  post_rotation : (auth chat_id : ℕ) (keys : List (ℕ × String)) → Request
  post_transfer : (auth chat_id new_owner_id : ℕ) → Request
  post_chat : (id now auth : ℕ) (body : CreateChatRequest) → Request
  get_one : (auth chat_id : ℕ) → Request
  patch_chat : (now auth chat_id : ℕ) (name description avatar_url : Option String) → Request
  remove_chat : (auth now chat_id : ℕ) → Request

-- the state after a request
unfoldable pub serve : Request → Store → Store
serve (get_participants auth c) s = (Handlers.list_participants auth c s).1
serve (post_participant auth now c u k) s = (Handlers.add_participant now auth c u k s).1
serve (delete_participant auth now c t) s = (Handlers.remove_participant now auth c t s).1
serve (patch_role auth c t role) s = (Handlers.update_participant_role auth c t role s).1
serve (post_link auth now c random) s = (Handlers.create_invite_link now random auth c s).1
serve (delete_link auth now c random) s = (Handlers.delete_invite_link now random auth c s).1
serve (post_join auth now slug) s = (Handlers.join_by_slug now auth slug s).1
serve (post_rotation auth c keys) s = (Handlers.rotate_group_key auth c keys s).1
serve (post_transfer auth c new) s = (Handlers.transfer_ownership auth c new s).1
serve (remove_chat auth now c) s = (Endpoints.delete_chat now auth c s).1
serve (post_chat id now auth body) s = (Endpoints.create_chat id now auth body s).1
serve (get_one auth c) s = (Endpoints.get_chat auth c s).1
serve (patch_chat now auth c name description avatar_url) s =
    (Endpoints.update_chat now auth c name description avatar_url s).1

unfoldable pub serve_all : List Request → Store → Store
serve_all [] s = s
serve_all (r ∷ rs) s = serve_all rs (serve r s)
