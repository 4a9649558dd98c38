-- ===== src/Chat/Ownership/Sequences.antt =====
-- The owner of a group under sequences of the requests of crates/api/src/handlers/groups/handlers.rs and
-- crates/api/src/handlers/chats/handlers.rs.
use mesty_api.Common.{
  ap, any, order_by, select_where, is_none, ◌&&◌, ◌≡◌, arith, if◌then◌else◌, Bool, true, false, ℕ,
  String, Option, some, none, List, [], ◌∷◌, refl, ◌==◌, length,
}
use mesty_api.DomainError.{Result, ok, err}
use mesty_api.Chat.Role
use mesty_api.Chat.Role.{Role, owner, same}
use mesty_api.Chat.Store.{Store, Participant, is_private}
use mesty_api.Chat.Chats
use mesty_api.Chat.Participants
use mesty_api.Chat.Handlers
use mesty_api.Chat.Participants.Roles.{role_in}
use mesty_api.Chat.Ownership.{
  IsOwned, same_roles, remove_participant-IsOwned, update_participant_role-IsOwned,
  transfer_ownership-IsOwned,
}
use mesty_api.Chat.Ownership.Arrivals.{
  add_participant-IsOwned, join_by_invite-IsOwned, set_invite_link-IsOwned,
  rotate_group_key-IsOwned, delete_chat-IsOwned,
}
use mesty_api.Chat.Ownership.Creations.{
  create_chat-IsOwned, get_chat-same, update_chat-IsOwned, delete_chat_state,
}
use mesty_api.Chat.Ownership.Requests.{
  post_chat, get_one, patch_chat, Request, get_participants, post_participant, delete_participant,
  patch_role, post_link, delete_link, post_join, post_rotation, post_transfer, remove_chat, serve,
  serve_all,
}

-- the same chats and participants; the published events may differ
abbrev SameRows : Store → Store → Type 0
SameRows s t = (t.chats ≡ s.chats) × (t.participants ≡ s.participants)

add_participant_rows :
    (now a d v : ℕ) (k : Option String) (s : Store)
    → SameRows
        (if v == a then s else (Participants.add_participant now d a v k s).1)
        (Handlers.add_participant now a d v k s).1
unfolding Handlers.add_participant
add_participant_rows now a d v k s = (ground arith, ground arith)

remove_participant_rows :
    (now a d t : ℕ) (s : Store)
    → SameRows
        (Participants.remove_participant now d a t s).1
        (Handlers.remove_participant now a d t s).1
unfolding Handlers.remove_participant
remove_participant_rows now a d t s = (ground arith, ground arith)

update_role_rows :
    (a d t : ℕ) (text : String) (s : Store)
    → SameRows
        (elim (Role.from_db_str text) [
          | none ↦ s
          | some new ↦
              if same new owner then s else (Participants.update_participant_role d a t new s).1
        ])
        (Handlers.update_participant_role a d t text s).1
unfolding Handlers.update_participant_role
update_role_rows a d t text s = (ground arith, ground arith)

create_link_rows :
    (now : ℕ) (random : String) (a d : ℕ) (s : Store)
    → SameRows
        (Participants.set_invite_link now random d a none s).1
        (Handlers.create_invite_link now random a d s).1
unfolding Handlers.create_invite_link
create_link_rows now random a d s = (ground arith, ground arith)

delete_link_rows :
    (now : ℕ) (random : String) (a d : ℕ) (s : Store)
    → SameRows
        (Participants.set_invite_link now random d a (some "") s).1
        (Handlers.delete_invite_link now random a d s).1
unfolding Handlers.delete_invite_link
delete_link_rows now random a d s = (ground arith, ground arith)

-- what `find_chat_by_slug` returns, which changes nothing
find_slug_same : (slug : String) (s : Store) → (Chats.find_chat_by_slug slug s).1 ≡ s
unfolding Chats.find_chat_by_slug Chats.to_chat
find_slug_same slug s = ground arith

join_rows :
    (now a : ℕ) (slug : String) (s : Store)
    → SameRows
        (elim (Chats.find_chat_by_slug slug s).0 [
          | err e ↦ s
          | ok found ↦ elim found [
            | none ↦ s
            | some chat ↦ (Participants.join_by_invite now chat.id a s).1
          ]
        ])
        (Handlers.join_by_slug now a slug s).1
unfolding Handlers.join_by_slug
join_rows now a slug s =
    (ground (arith, find_slug_same slug s), ground (arith, find_slug_same slug s))

rotate_rows :
    (a d : ℕ) (keys : List (ℕ × String)) (s : Store)
    → SameRows
        (if length keys == 0 then s else (Participants.rotate_group_key d a keys s).1)
        (Handlers.rotate_group_key a d keys s).1
unfolding Handlers.rotate_group_key
rotate_rows a d keys s = (ground arith, ground arith)

transfer_rows :
    (a d new : ℕ) (s : Store)
    → SameRows
        (if new == a then s else (Participants.transfer_ownership d a new s).1)
        (Handlers.transfer_ownership a d new s).1
unfolding Handlers.transfer_ownership
transfer_rows a d new s = (ground arith, ground arith)

collect_same : (ps : List Participant) (s : Store) → (Participants.collect_details ps s).1 ≡ s
unfolding Participants.collect_details Participants.to_detail
collect_same [] s = refl
collect_same (p ∷ ps) s = ground (arith, collect_same ps s)

list_same : (a d : ℕ) (s : Store) → (Handlers.list_participants a d s).1 ≡ s
unfolding Handlers.list_participants Participants.get_participants_detail
    Participants.verify_participant
list_same a d s = ground (
  arith,
  collect_same
      (order_by (λ p. p.joined_at)
        (select_where (λ p. p.chat_id == d && is_none p.left_at) s.participants))
      s,
)

module _ (c : ℕ) where
  same_rows : {s t : Store} → SameRows s t → IsOwned c s → IsOwned c t
  same_rows {s} {t} (chats, rows) h =
      same_roles c s t
        (ap (any (λ r. r.id == c)) chats, ap (any (λ r. r.id == c && is_private r)) chats)
        (λ u. ap (role_in c u) rows) h

  either : (b : Bool) (s t : Store) → IsOwned c s → IsOwned c t → IsOwned c (if b then s else t)
  either true s t h h' = h
  either false s t h h' = h'

  for_some :
      {A : Type 0} (o : Option A) (s : Store) (f : A → Store)
      → IsOwned c s
      → ((a : A) → IsOwned c (f a))
      → IsOwned c (elim o [ none ↦ s | some a ↦ f a ])
  for_some none s f h hf = h
  for_some (some a) s f h hf = hf a

  for_ok :
      {A : Type 0} (r : Result A) (s : Store) (f : A → Store)
      → IsOwned c s
      → ((a : A) → IsOwned c (f a))
      → IsOwned c (elim r [ ok a ↦ f a | err e ↦ s ])
  for_ok (err e) s f h hf = h
  for_ok (ok a) s f h hf = hf a

  serve-IsOwned : (r : Request) (s : Store) → IsOwned c s → IsOwned c (serve r s)
  unfolding serve
  serve-IsOwned (get_participants auth d) s h = rw (list_same auth d s) h
  serve-IsOwned (post_participant auth now d u k) s h =
      same_rows (add_participant_rows now auth d u k s)
        (either (u == auth) _ _ h (add_participant-IsOwned c now d auth u k s h))
  serve-IsOwned (delete_participant auth now d t) s h =
      same_rows (remove_participant_rows now auth d t s)
        (remove_participant-IsOwned c now d auth t s h)
  serve-IsOwned (patch_role auth d t text) s h = same_rows (update_role_rows auth d t text s) (
      for_some (Role.from_db_str text) s _ h
        (λ new. either (same new owner) _ _ h (update_participant_role-IsOwned c d auth t new s h)))
  serve-IsOwned (post_link auth now d random) s h =
      same_rows (create_link_rows now random auth d s)
        (set_invite_link-IsOwned c now random d auth none s h)
  serve-IsOwned (delete_link auth now d random) s h =
      same_rows (delete_link_rows now random auth d s)
        (set_invite_link-IsOwned c now random d auth (some "") s h)
  serve-IsOwned (post_join auth now slug) s h = same_rows (join_rows now auth slug s) (
      for_ok (Chats.find_chat_by_slug slug s).0 s _ h
        (λ found. for_some found s _ h (λ chat. join_by_invite-IsOwned c now chat.id auth s h)))
  serve-IsOwned (post_rotation auth d keys) s h =
      same_rows (rotate_rows auth d keys s)
        (either (length keys == 0) _ _ h (rotate_group_key-IsOwned c d auth keys s h))
  serve-IsOwned (post_transfer auth d new) s h =
      same_rows (transfer_rows auth d new s)
        (either (new == auth) _ _ h (transfer_ownership-IsOwned c d auth new s h))
  serve-IsOwned (remove_chat auth now d) s h =
      rw (delete_chat_state c now auth d s) (delete_chat-IsOwned c now auth d s h)
  serve-IsOwned (post_chat id now auth body) s h = create_chat-IsOwned c id now auth body s h
  serve-IsOwned (get_one auth d) s h = rw (get_chat-same c auth d s) h
  serve-IsOwned (patch_chat now auth d name description avatar_url) s h =
      update_chat-IsOwned c now auth d name description avatar_url s h

  -- If a group is there and has exactly one owner, it is there and has exactly one owner after any
  -- sequence of requests of any users to the group endpoints and to those that create, read, update or
  -- delete a chat, on this group and on others, handled one after another.
  pub serve_all-IsOwned : (rs : List Request) (s : Store) → IsOwned c s → IsOwned c (serve_all rs s)
  unfolding serve_all
  serve_all-IsOwned [] s h = h
  serve_all-IsOwned (r ∷ rs) s h = serve_all-IsOwned rs (serve r s) (serve-IsOwned r s h)
