-- ===== src/Chat/Ownership/Creations.antt =====
-- The owner of a group when other chats are created or a chat is updated: create_chat, get_chat and
-- update_chat of crates/api/src/handlers/chats/handlers.rs.
use mesty_api.Common.{
  ℕ, ◌≡◌, ◌⊎◌, refl, subst, inl, inr, true, false, String, Option, none, some, List, ◌∷◌, ◌&&◌,
  ◌||◌, ◌==◌, ==_iff, not, all, find?, if◌then◌else◌, str_eq, is_empty, trim, update_where,
  coalesce, arith, Bool-cases, Option-cases,
}
use mesty_api.DomainError.{Result, ok, err}
use mesty_api.Preserves.{Preserves}
use mesty_api.Chat.ChatType.{private_chat}
use mesty_api.Chat.Role.{member, owner}
use mesty_api.Chat.Store.{ChatRow, Store, is_private}
use mesty_api.Chat.Chats
use mesty_api.Chat.Chats.{
  joined_row, knows, new_chat, new_participant, insert_members, shared_private, insert_private_chat,
  existing_or_new, create_private_chat, create_group_chat, has_valid_name, chat_of_creator,
}
use mesty_api.Chat.Chats.Creation.{chat_of_creator_lem, created, get_chat_for_user_lem}
use mesty_api.Chat.Chats.Members.{roles_stay}
use mesty_api.Chat.Endpoints
use mesty_api.Chat.Endpoints.{CreateChatRequest, private_with, group_of, new_chat_of}
use mesty_api.Chat.Ownership.{IsOwned, has_chat, same_roles}
use mesty_api.Chat.Ownership.Arrivals.{updated_kind}

chat_of_creator-same : (u c : ℕ) (s : Store) → (chat_of_creator u c s).1 ≡ s
chat_of_creator-same u c s = ground (arith, chat_of_creator_lem u c s)

create_group_chat_state :
    (id now k : ℕ) (name : String) (ids : List ℕ) (s : Store)
    → (create_group_chat id now k name ids s).1 ≡ (
        if str_eq name "" || has_chat id s || not (knows k s && all (λ u. knows u s) ids)
        then s
        else created id now k name ids s)
unfolding create_group_chat
create_group_chat_state id now k name ids s =
    ground (arith, chat_of_creator-same k id (created id now k name ids s))

-- the rows of a new private chat
abbrev paired : ℕ → ℕ → ℕ → ℕ → Store → Store
paired id now k p s = record s {
  chats = new_chat id now private_chat none k ∷ s.chats;
  participants =
      new_participant now id k member k ∷ new_participant now id p member k ∷ s.participants;
}

existing_or_new_state :
    (id now k p : ℕ) (o : Option ChatRow) (s : Store)
    → (existing_or_new id now k p o s).1 ≡ (elim o [
      | some r ↦ s
      | none ↦
          if has_chat id s || k == p || not (knows k s && knows p s) then s else paired id now k p s
    ])
unfolding existing_or_new insert_private_chat
existing_or_new_state id now k p none s = ground arith
existing_or_new_state id now k p (some r) s = refl

shown_state :
    (id now k p : ℕ) (s t : Store) (r : Result ℕ)
    → existing_or_new id now k p (find? (shared_private k p s) s.chats) s ≡ (r, t)
    → (create_private_chat id now k p s).1 ≡ t
unfolding create_private_chat
shown_state id now k p s t (err e) f = ground (arith, f)
shown_state id now k p s t (ok i) f = ground (arith, f, chat_of_creator-same k i t)

create_private_chat_state :
    (id now k p : ℕ) (s : Store)
    → (create_private_chat id now k p s).1
      ≡ (existing_or_new id now k p (find? (shared_private k p s) s.chats) s).1
create_private_chat_state id now k p s =
    shown_state id now k p s (existing_or_new id now k p (find? (shared_private k p s) s.chats) s).1
      (existing_or_new id now k p (find? (shared_private k p s) s.chats) s).0 (ground arith)

-- a chat that is there has no new id
other_id : (id c : ℕ) (s : Store) → has_chat id s ≡ false → has_chat c s ≡ true → (id == c) ≡ false
other_id id c s none_of there = elim (Bool-cases (id == c)) [
  | inl e ↦
      let same : id ≡ c = (==_iff id c).0 e in
      absurd (ground (arith, subst (λ x. has_chat x s ≡ false) same none_of, there))
  | inr e ↦ e
]

module _ (c : ℕ) where
  created-IsOwned :
      (id now k : ℕ) (name : String) (ids : List ℕ) (s : Store)
      → (id == c) ≡ false
      → IsOwned c s
      → IsOwned c (created id now k name ids s)
  created-IsOwned id now k name ids s e h =
      same_roles c s (created id now k name ids s) (ground (arith, e), ground (arith, e))
        (λ u. ground (
          arith,
          e,
          roles_stay now id k u c e ids (new_participant now id k owner k ∷ s.participants),
        ))
        h

  paired-IsOwned :
      (id now k p : ℕ) (s : Store)
      → (id == c) ≡ false
      → IsOwned c s
      → IsOwned c (paired id now k p s)
  paired-IsOwned id now k p s e h =
      same_roles c s (paired id now k p s) (ground (arith, e), ground (arith, e))
        (λ u. ground (arith, e)) h

  create_group_chat-IsOwned :
      (id now k : ℕ) (name : String) (ids : List ℕ)
      → Preserves (IsOwned c) (create_group_chat id now k name ids)
  create_group_chat-IsOwned id now k name ids s h =
      rw (create_group_chat_state id now k name ids s)
        (elim (Bool-cases
          (str_eq name "" || has_chat id s || not (knows k s && all (λ u. knows u s) ids))) [
            | inl e ↦ rw e h
            | inr e ↦
                rw e
                  (created-IsOwned id now k name ids s (other_id id c s (ground arith) h.there) h)
          ])

  existing_or_new-IsOwned :
      (id now k p : ℕ) (o : Option ChatRow) → Preserves (IsOwned c) (existing_or_new id now k p o)
  existing_or_new-IsOwned id now k p (some r) s h =
      rw (existing_or_new_state id now k p (some r) s) h
  existing_or_new-IsOwned id now k p none s h =
      rw (existing_or_new_state id now k p none s)
        (elim (Bool-cases (has_chat id s || k == p || not (knows k s && knows p s))) [
          | inl e ↦ rw e h
          | inr e ↦ rw e (paired-IsOwned id now k p s (other_id id c s (ground arith) h.there) h)
        ])

  create_private_chat-IsOwned :
      (id now k p : ℕ) → Preserves (IsOwned c) (create_private_chat id now k p)
  create_private_chat-IsOwned id now k p s h =
      rw (create_private_chat_state id now k p s)
        (existing_or_new-IsOwned id now k p (find? (shared_private k p s) s.chats) s h)

  new_chat_of-IsOwned :
      (id now auth : ℕ) (req : CreateChatRequest)
      → Preserves (IsOwned c) (new_chat_of id now auth req)
  unfolding new_chat_of
  new_chat_of-IsOwned id now auth (private_with p) s h = elim (Bool-cases (p == auth)) [
    | inl e ↦ rw e h
    | inr e ↦ rw e (create_private_chat-IsOwned id now auth p s h)
  ]
  new_chat_of-IsOwned id now auth (group_of name ids) s h =
      elim (Bool-cases (is_empty (trim name))) [
        | inl e ↦ rw e h
        | inr e ↦ rw e (create_group_chat-IsOwned id now auth (trim name) ids s h)
      ]

  create_chat_state :
      (id now auth : ℕ) (req : CreateChatRequest) (s : Store)
      → (Endpoints.create_chat id now auth req s).1 ≡ (new_chat_of id now auth req s).1
  unfolding Endpoints.create_chat
  create_chat_state id now auth req s = ground arith

  pub create_chat-IsOwned :
      (id now auth : ℕ) (req : CreateChatRequest)
      → Preserves (IsOwned c) (Endpoints.create_chat id now auth req)
  create_chat-IsOwned id now auth req s h =
      rw (create_chat_state id now auth req s) (new_chat_of-IsOwned id now auth req s h)

  pub get_chat-same : (auth d : ℕ) (s : Store) → (Endpoints.get_chat auth d s).1 ≡ s
  unfolding Endpoints.get_chat
  get_chat-same auth d s = ground (arith, get_chat_for_user_lem auth d s)

  update_chat_state :
      (now auth d : ℕ) (name description avatar_url : Option String) (s : Store)
      → ((Endpoints.update_chat now auth d name description avatar_url s).1 ≡ s)
        ⊎ ((row : ChatRow) × ((Endpoints.update_chat now auth d name description avatar_url s).1
              ≡ record s {
                chats =
                    update_where
                      (λ r. r.id == d)
                      (λ r. record r {
                        name = coalesce name row.name;
                        description = coalesce description row.description;
                        avatar_url = coalesce avatar_url row.avatar_url;
                        updated_at = now;
                      })
                      s.chats;
              }))
  unfolding Endpoints.update_chat Chats.update_chat
  update_chat_state now auth d name description avatar_url s =
      elim (Option-cases (joined_row auth d s)) [
        | inl e ↦ inl (ground (arith, e))
        | inr (row, e) ↦ elim (Bool-cases (has_valid_name row.chat_type (coalesce name row.name))) [
          | inl v ↦ inr (row, ground (arith, e, v))
          | inr v ↦ inl (ground (arith, e, v))
        ]
      ]

  pub update_chat-IsOwned :
      (now auth d : ℕ) (name description avatar_url : Option String)
      → Preserves (IsOwned c) (Endpoints.update_chat now auth d name description avatar_url)
  unfolding is_private
  update_chat-IsOwned now auth d name description avatar_url s h =
      elim (update_chat_state now auth d name description avatar_url s) [
        | inl e ↦ rw e h
        | inr (row, e) ↦ rw e (
            same_roles c s _
              (updated_kind c d
                (λ r. record r {
                  name = coalesce name row.name;
                  description = coalesce description row.description;
                  avatar_url = coalesce avatar_url row.avatar_url;
                  updated_at = now;
                })
                (λ r. refl) (λ r. refl) s)
              (λ u. refl) h)
      ]

  pub delete_chat_state :
      (now auth d : ℕ) (s : Store)
      → (Endpoints.delete_chat now auth d s).1 ≡ (Chats.delete_chat now auth d s).1
  unfolding Endpoints.delete_chat
  delete_chat_state now auth d s = ground arith
