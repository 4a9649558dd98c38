-- ===== src/Chat/Tests.antt =====
-- A small group, on which the theorems on chats are applied, and runs of the endpoints of
-- crates/api/src/handlers/groups/handlers.rs.
use mesty_api.Common.{ℕ, refl, none, some, List, [], ◌∷◌, arith}
use mesty_api.DomainError.{Guarded}
use mesty_api.Chat.Endpoints.{group_of}
use mesty_api.Chat.ChatType
use mesty_api.Chat.ChatType.{group, private_chat}
use mesty_api.Chat.Role.{Role, member, admin, owner}
use mesty_api.Chat.Store.{Participant, Store, is_private}
use mesty_api.Chat.Chats.{Chat, new_chat, create_group_chat}
use mesty_api.Chat.Chats.Creation.{chat, MayCreate, IsNewGroup, create_group_chat-Guarded}
use mesty_api.Chat.Ownership.{IsOwned}
use mesty_api.Chat.Ownership.Requests.{
  Request, post_participant, delete_participant, patch_role, post_transfer, post_chat, patch_chat,
  remove_chat, serve_all,
}
use mesty_api.Chat.Ownership.Sequences.{serve_all-IsOwned}

abbrev row : ℕ → Role → Participant
row u r = record {
  chat_id = 10;
  user_id = u;
  role = r;
  encryption_key_enc = none;
  added_by = some 1;
  joined_at = 5;
  left_at = none;
}

-- user 1 owns the group 10, user 2 is an admin and user 3 a member
abbrev group_of_three : Store
group_of_three = record {
  users = 1 ∷ 2 ∷ 3 ∷ 4 ∷ [];
  chats = new_chat 10 5 group (some "team") 1 ∷ [];
  participants = row 1 owner ∷ row 2 admin ∷ row 3 member ∷ [];
  published = [];
}

group_of_three-IsOwned : IsOwned 10 group_of_three
unfolding is_private ChatType.as_db_str
group_of_three-IsOwned = record {
  there = refl;
  kind = refl;
  head = 1;
  holds = refl;
  only = λ u e. ground arith;
}

-- the admin adds a user, who then leaves; the owner hands over and removes the admin's role, and
-- another member makes a group and renames this one
abbrev requests : List Request
requests =
    post_participant 2 20 10 4 none
    ∷ delete_participant 4 21 10 4
    ∷ post_transfer 1 10 2
    ∷ patch_role 2 10 1 "member"
    ∷ post_chat 11 22 3 (group_of "club" (1 ∷ []))
    ∷ patch_chat 23 3 10 (some "team") none none
    ∷ remove_chat 2 24 10
    ∷ []

serve_all-IsOwned_example : IsOwned 10 (serve_all requests group_of_three)
serve_all-IsOwned_example = serve_all-IsOwned 10 requests group_of_three group_of_three-IsOwned

create_group_chat-Guarded_example :
    Guarded group_of_three
      (MayCreate 11 4 "club" (3 ∷ 4 ∷ 2 ∷ []) group_of_three)
      (IsNewGroup 11 20 4 "club" (3 ∷ 4 ∷ 2 ∷ []) group_of_three)
      (create_group_chat 11 20 4 "club" (3 ∷ 4 ∷ 2 ∷ []) group_of_three)
create_group_chat-Guarded_example =
    create_group_chat-Guarded 11 20 4 "club" (3 ∷ 4 ∷ 2 ∷ []) group_of_three (λ u. refl)

abbrev opened : Chat
opened = chat (new_chat 12 20 private_chat none 3)
