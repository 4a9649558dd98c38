-- ===== src/Chat/Chats/Updates.antt =====
-- Renaming and leaving chats: update_chat and delete_chat of
-- crates/infrastructure/src/repositories/chat.rs.
use mesty_api.Common.{
  ℕ, ◌≡◌, refl, inl, inr, Bool, true, false, String, Option, none, some, List, [], ◌∷◌, ◌&&◌, ◌||◌,
  ◌==◌, not, any, find?, if◌then◌else◌, arith, Option-cases, Bool-cases, find?-holds, coalesce,
  update_where,
}
use mathlib.Core.Option
use mesty_api.DomainError.{validation, not_found, ok, err, Guarded, Guarded-ok, Guarded-err}
use mesty_api.Chat.ChatType
use mesty_api.Chat.Role.{owner, same}
use mesty_api.Chat.Store.{ChatRow, Participant, Store, is_at, is_active, is_live, is_private}
use mesty_api.Chat.Chats.{
  joined_row, get_chat_for_user, has_valid_name, update_chat, delete_chat, leave, mark_deleted,
}
use mesty_api.Chat.Chats.Creation.{chat, get_chat_for_user_lem}

module _ (now : ℕ) (name description avatar_url : Option String) where
  -- what an update makes of the row that it reads, on every row of the id
  abbrev set_fields : ChatRow → ChatRow → ChatRow
  set_fields row r = record r {
    name = coalesce name row.name;
    description = coalesce description row.description;
    avatar_url = coalesce avatar_url row.avatar_url;
    updated_at = now;
  }

  abbrev updated : ℕ → ChatRow → Store → Store
  updated c row s = record s { chats = update_where (λ r. r.id == c) (set_fields row) s.chats }

  update_chat_lem :
      (u c : ℕ) (s : Store)
      → update_chat now u c name description avatar_url s ≡ (elim (joined_row u c s) [
        | none ↦ (err (not_found "Resource not found"), s)
        | some row ↦
            if has_valid_name row.chat_type (coalesce name row.name)
            then (
              ok (record (chat (set_fields row row)) { id = c; created_at = now }),
              updated c row s,
            )
            else (err (validation "Validation constraint failed"), s)
      ])
  unfolding update_chat
  update_chat_lem u c s = elim (Option-cases (joined_row u c s)) [
    | inl e ↦ ground arith
    | inr (row, e) ↦ ground (arith, ChatType.from_db_str-as_db_str row.chat_type)
  ]

  find?-updated :
      (u c : ℕ) (row : ChatRow) (ps : List Participant) (rs : List ChatRow)
      → find?
          (λ r. is_live c r && any (is_active c u) ps)
          (update_where (λ r. r.id == c) (set_fields row) rs)
        ≡ Option.map (set_fields row) (find? (λ r. is_live c r && any (is_active c u) ps) rs)
  find?-updated u c row ps [] = refl
  find?-updated u c row ps (r ∷ rs) = ground (arith, find?-updated u c row ps rs)

  -- An active participant of a live chat updates it exactly if the new name is valid. The fields that
  -- are given change, and reading the chat afterwards gives what the update returned, except for the
  -- creation time: the update returns its own time there. Otherwise nothing changes.
  pub update_chat-Guarded :
      (u c : ℕ) (s : Store)
      → Guarded s
          ((row : ChatRow) × (joined_row u c s ≡ some row)
            × (has_valid_name row.chat_type (coalesce name row.name) ≡ true))
          (λ returned t.
            (row : ChatRow) × (joined_row u c s ≡ some row)
            × (returned.created_at ≡ now)
            × (get_chat_for_user u c t
                ≡ (ok (some (record returned { created_at = row.created_at })), t)))
          (update_chat now u c name description avatar_url s)
  update_chat-Guarded u c s = elim (Option-cases (joined_row u c s)) [
    | inl e ↦
        Guarded-err _ _ _ _ (λ x. ground (arith, update_chat_lem u c s))
          (ground (arith, update_chat_lem u c s)) (λ m. ground arith)
    | inr (row, e) ↦ elim (Bool-cases (has_valid_name row.chat_type (coalesce name row.name))) [
      | inl valid ↦
          let found =
            find?-holds (λ r. is_live c r && any (is_active c u) s.participants) s.chats row e in
          Guarded-ok _ _ _ _ {a = record (chat (set_fields row row)) { id = c; created_at = now }}
            {t = updated c row s} (ground (arith, update_chat_lem u c s)) (row, e, valid)
            (
              row,
              e,
              refl,
              ground (
                arith,
                get_chat_for_user_lem u c (updated c row s),
                find?-updated u c row s.participants s.chats,
              ),
            )
      | inr invalid ↦
          Guarded-err _ _ _ _ (λ x. ground (arith, update_chat_lem u c s))
            (ground (arith, update_chat_lem u c s)) (λ m. ground arith)
    ]
  ]

-- a row of the user in the chat that is an owner's
abbrev pub owns : ℕ → ℕ → Store → Bool
owns c u s = any (λ p. is_at c u p && same p.role owner) s.participants

module _ (now c u : ℕ) where
  abbrev left_row : Participant → Participant
  left_row p = record p { left_at = some now }

  gone :
      (ps : List Participant) → any (is_active c u) (update_where (is_at c u) left_row ps) ≡ false
  gone [] = refl
  gone (p ∷ ps) = ground (arith, gone ps)

  abbrev deleted_row : ChatRow → ChatRow
  deleted_row r = record r { deleted_at = some now; updated_at = now }

  no_live :
      (b : Bool) (rs : List ChatRow)
      → find? (λ r. is_live c r && b) (update_where (λ r. r.id == c) deleted_row rs) ≡ none
  no_live b [] = refl
  no_live b (r ∷ rs) = ground (arith, no_live b rs)

  none_live : (b : Bool) (rs : List ChatRow) → b ≡ false → find? (λ r. is_live c r && b) rs ≡ none
  none_live b [] e = refl
  none_live b (r ∷ rs) e = ground (arith, none_live b rs)

  delete_chat_lem :
      (s : Store)
      → delete_chat now u c s ≡ (elim (joined_row u c s) [
        | none ↦ (err (not_found "chat not found or not a participant"), s)
        | some row ↦ (
          ok tt,
          if is_private row || not (owns c u s) then leave now c u s else mark_deleted now c s,
        )
      ])
  unfolding delete_chat
  delete_chat_lem s = ground arith

  left_unread : (s : Store) → get_chat_for_user u c (leave now c u s) ≡ (ok none, leave now c u s)
  left_unread s =
      let t = leave now c u s in
      ground (
        arith,
        get_chat_for_user_lem u c t,
        none_live (any (is_active c u) t.participants) t.chats (gone s.participants),
      )

  deleted_unread :
      (s : Store) → get_chat_for_user u c (mark_deleted now c s) ≡ (ok none, mark_deleted now c s)
  deleted_unread s = ground (
    arith,
    get_chat_for_user_lem u c (mark_deleted now c s),
    no_live (any (is_active c u) s.participants) s.chats,
  )

  -- An active participant of a live chat deletes it: the owner of a chat that is not private marks it
  -- deleted, any other one leaves, and afterwards the user reads no such chat. Otherwise nothing
  -- changes.
  pub delete_chat-Guarded :
      (s : Store)
      → Guarded s
          ((row : ChatRow) × (joined_row u c s ≡ some row))
          (λ x t.
            (row : ChatRow) × (joined_row u c s ≡ some row)
            × (t ≡ (
                if is_private row || not (owns c u s)
                then leave now c u s
                else mark_deleted now c s))
            × (get_chat_for_user u c t ≡ (ok none, t)))
          (delete_chat now u c s)
  delete_chat-Guarded s = elim (Option-cases (joined_row u c s)) [
    | inl e ↦
        Guarded-err _ _ _ _ (λ x. ground (arith, delete_chat_lem s))
          (ground (arith, delete_chat_lem s)) (λ m. ground arith)
    | inr (row, e) ↦
        Guarded-ok _ _ _ _ {a = tt}
          {t = if is_private row || not (owns c u s) then leave now c u s else mark_deleted now c s}
          (ground (arith, delete_chat_lem s)) (row, e)
          (row, e, refl, ground (arith, left_unread s, deleted_unread s))
  ]
