-- ===== src/Chat/Chats/Pairs.antt =====
-- Private chats: create_private_chat of crates/infrastructure/src/repositories/chat.rs.
use mesty_api.Common.{
  ℕ, ◌≡◌, refl, ◌∙◌, inl, inr, true, none, some, List, [], ◌∷◌, ◌&&◌, ◌==◌, ==_refl, not, any,
  find?, if◌then◌else◌, arith, Option-cases, find?-holds,
}
use mesty_api.DomainError.{validation, already_exists, ok, err}
use mesty_api.Chat.ChatType
use mesty_api.Chat.ChatType.{ChatType, private_chat}
use mesty_api.Chat.Role.{member}
use mesty_api.Chat.Store.{ChatRow, Store, is_active, is_live, is_private}
use mesty_api.Chat.Chats.{
  Chat, chat_of_creator, shared_private, new_chat, new_participant, knows, insert_private_chat,
  existing_or_new, create_private_chat,
}
use mesty_api.Chat.Chats.Creation.{chat_of_creator_lem}

module _ (a b : ℕ) (s : Store) where
  -- either user finds the same chat
  shared_comm :
      (rs : List ChatRow) → find? (shared_private a b s) rs ≡ find? (shared_private b a s) rs
  shared_comm [] = refl
  shared_comm (r ∷ rs) = ground (arith, shared_comm rs)

  -- two active participants of a chat read the same row
  joined_comm :
      (c : ℕ)
      → any (is_active c a) s.participants ≡ true
      → any (is_active c b) s.participants ≡ true
      → (rs : List ChatRow)
      → find? (λ r. is_live c r && any (is_active c a) s.participants) rs
        ≡ find? (λ r. is_live c r && any (is_active c b) s.participants) rs
  joined_comm c ha hb [] = refl
  joined_comm c ha hb (r ∷ rs) = ground (arith, joined_comm c ha hb rs)

create_private_lem :
    (id now a b : ℕ) (s : Store)
    → create_private_chat id now a b s ≡ (elim (find? (shared_private a b s) s.chats) [
      | some r ↦ chat_of_creator a r.id s
      | none ↦
          let (r, t) = insert_private_chat id now a b s in
          elim r [ ok c ↦ chat_of_creator a c t | err e ↦ (err e, t) ]
    ])
unfolding create_private_chat existing_or_new
create_private_lem id now a b s = ground arith

insert_private_lem :
    (id now a b : ℕ) (s : Store)
    → insert_private_chat id now a b s ≡ (
        if any (λ r. r.id == id) s.chats
        then (err (already_exists "Resource already exists"), s)
        else if a == b
        then (err (already_exists "Resource already exists"), s)
        else if not (knows a s && knows b s)
        then (err (validation "Referenced resource not found"), s)
        else (
          ok id,
          record s {
            chats = new_chat id now private_chat none a ∷ s.chats;
            participants =
                new_participant now id a member a
                ∷ new_participant now id b member a
                ∷ s.participants;
          },
        ))
unfolding insert_private_chat
insert_private_lem id now a b s = ground arith

-- the second request, when the users share a chat
again :
    (id now a b : ℕ) (s : Store) (r : ChatRow)
    → find? (shared_private a b s) s.chats ≡ some r
    → create_private_chat id now b a s ≡ chat_of_creator a r.id s
again id now a b s r e =
    let found = find?-holds (shared_private a b s) s.chats r e in
    ground (
      arith,
      create_private_lem id now b a s,
      shared_comm a b s s.chats,
      chat_of_creator_lem a r.id s,
      chat_of_creator_lem b r.id s,
      joined_comm a b s r.id (ground arith) (ground arith) s.chats,
    )

abbrev paired : ℕ → ℕ → ℕ → ℕ → Store → Store
paired id now a b s = record s {
  chats = new_chat id now private_chat none a ∷ s.chats;
  participants =
      new_participant now id a member a ∷ new_participant now id b member a ∷ s.participants;
}

-- the users of a new private chat share it
paired-shared :
    (id now a b : ℕ) (s : Store)
    → find? (shared_private a b (paired id now a b s)) (paired id now a b s).chats
      ≡ some (new_chat id now private_chat none a)
unfolding is_private ChatType.as_db_str
paired-shared id now a b s = ground (arith, ==_refl id, ==_refl a, ==_refl b)

-- the second request of either user, when they share a chat
both_again :
    (id now a b : ℕ) (t : Store) (r : ChatRow) (c : Chat)
    → find? (shared_private a b t) t.chats ≡ some r
    → chat_of_creator a r.id t ≡ (ok c, t)
    → (create_private_chat id now a b t ≡ (ok c, t))
      × (create_private_chat id now b a t ≡ (ok c, t))
both_again id now a b t r c found shown =
    (ground (arith, create_private_lem id now a b t), again id now a b t r found ∙ shown)

-- Once a user has opened a private chat with another one, whoever of the two opens it again gets
-- the same chat, and nothing changes.
pub create_private_chat-again :
    (id now id' now' a b : ℕ) (s : Store) (c : Chat)
    → (create_private_chat id now a b s).0 ≡ ok c
    → let t = (create_private_chat id now a b s).1 in
      (create_private_chat id' now' a b t ≡ (ok c, t))
      × (create_private_chat id' now' b a t ≡ (ok c, t))
create_private_chat-again id now id' now' a b s c e =
    elim (Option-cases (find? (shared_private a b s) s.chats)) [
      | inr (r, found) ↦
          let first = create_private_lem id now a b s in
          let here = chat_of_creator_lem a r.id s in
          let same : (create_private_chat id now a b s).1 ≡ s = ground (arith, first, here) in
          rw same (both_again id' now' a b s r c found (ground (arith, first, here)))
      | inl missing ↦
          let first = create_private_lem id now a b s in
          let t = paired id now a b s in
          let here = chat_of_creator_lem a id t in
          let inserted = insert_private_lem id now a b s in
          let grown : (create_private_chat id now a b s).1 ≡ t =
            ground (arith, first, here, inserted) in
          rw grown (
            both_again id' now' a b t (new_chat id now private_chat none a) c
              (paired-shared id now a b s)
              (ground (arith, first, here, inserted, ==_refl id, ==_refl a)))
    ]
