-- ===== src/Messages/Editing.antt =====
-- Who may edit or delete a message: edit_message and delete_message of
-- crates/infrastructure/src/repositories/chat.rs.
pub mod Contents
use mesty_api.Common.{
  ℕ, ◌≡◌, refl, inl, inr, Bool, true, false, String, Option, none, some, ◌&&◌, ◌||◌, ◌==◌, not, any,
  find?, if◌then◌else◌, arith, Option-cases, Bool-cases, is_none, update_where,
}
use mesty_api.DomainError.{validation, not_found, ok, err, Guarded, Guarded-ok, Guarded-err}
use mesty_api.Chat.Store.{is_active, is_live}
use mesty_api.Messages.Store.{Message, Store, is_own, has_content, is_consistent}
use mesty_api.Messages.Queries.{
  ensure_active_membership_pool, edited, update_message, edit_message, erased, delete_message,
}

abbrev pub is_member : ℕ → ℕ → Store → Bool
is_member u c s = any (is_active c u) s.chat.participants && any (is_live c) s.chat.chats

abbrev pub row_of : ℕ → Store → Option Message
row_of i s = find? (λ (m : Message). m.id == i) s.messages

-- The sender edits a message that is not deleted, still takes part in its chat, gives a content or a
-- vector, and the row keeps its checks.
abbrev pub MayEdit : ℕ → ℕ → ℕ → Option String → Option String → Store → Type 0
MayEdit now u i content iv s =
    (own old : Message) × (find? (is_own i u) s.messages ≡ some own)
    × (is_member u own.chat_id s ≡ true)
    × (is_none content && is_none iv ≡ false)
    × (row_of i s ≡ some old)
    × (has_content (edited now content iv old) && is_consistent (edited now content iv old) ≡ true)

abbrev pub with_edit : ℕ → ℕ → Option String → Option String → Store → Store
with_edit now i content iv s = record s {
  messages = update_where (λ m. m.id == i) (edited now content iv) s.messages;
}

module _ (now u i : ℕ) (content iv : Option String) (s : Store) where
  edit_message_unknown :
      find? (is_own i u) s.messages ≡ none
      → edit_message now u i content iv s
        ≡ (err (not_found "message not found or not authorized"), s)
  unfolding edit_message
  edit_message_unknown e = ground (arith, e)

  edit_message_lem :
      (own : Message)
      → find? (is_own i u) s.messages ≡ some own
      → edit_message now u i content iv s ≡ (
          if not (is_member u own.chat_id s)
          then (err (not_found "chat not found or not a participant"), s)
          else if is_none content && is_none iv
          then (err (validation "content_encrypted and content_iv are required"), s)
          else update_message i (edited now content iv) s)
  unfolding edit_message ensure_active_membership_pool
  edit_message_lem own e = ground (arith, e)

  update_message_unknown :
      row_of i s ≡ none
      → update_message i (edited now content iv) s ≡ (err (not_found "Resource not found"), s)
  unfolding update_message
  update_message_unknown e = ground (arith, e)

  update_message_lem :
      (old : Message)
      → row_of i s ≡ some old
      → let new = edited now content iv old in
        update_message i (edited now content iv) s ≡ (
          if has_content new && is_consistent new
          then (ok new, with_edit now i content iv s)
          else (err (validation "Validation constraint failed"), s))
  unfolding update_message
  update_message_lem old e = ground (arith, e)

  -- what it does, in the words of the queries
  pub edit_message-with_edit :
      Guarded s
        (MayEdit now u i content iv s)
        (λ x t.
          (old : Message) × (row_of i s ≡ some old)
          × (x ≡ edited now content iv old)
          × (t ≡ with_edit now i content iv s))
        (edit_message now u i content iv s)
  edit_message-with_edit = elim (Option-cases (find? (is_own i u) s.messages)) [
    | inl e ↦
        Guarded-err _ _ _ _ (λ x. ground (arith, edit_message_unknown e))
          (ground (arith, edit_message_unknown e)) (λ p. ground (arith, e, p.2))
    | inr (own, e) ↦
        let law = edit_message_lem own e in
        elim (Bool-cases (not (is_member u own.chat_id s) || is_none content && is_none iv)) [
          | inl refused ↦
              Guarded-err _ _ _ _ (λ x. ground (arith, law)) (ground (arith, law))
                (λ p. ground (arith, e, p.2, p.3, p.4))
          | inr may ↦ elim (Option-cases (row_of i s)) [
            | inl e' ↦
                Guarded-err _ _ _ _ (λ x. ground (arith, law, update_message_unknown e'))
                  (ground (arith, law, update_message_unknown e')) (λ p. ground (arith, e', p.5))
            | inr (old, e') ↦
                let update = update_message_lem old e' in
                let new = edited now content iv old in
                elim (Bool-cases (has_content new && is_consistent new)) [
                  | inl kept ↦
                      Guarded-ok _ _ _ _ {a = new} {t = with_edit now i content iv s}
                        (ground (arith, law, update))
                        (own, old, e, ground arith, ground arith, e', kept) (old, e', refl, refl)
                  | inr broken ↦
                      Guarded-err _ _ _ _ (λ x. ground (arith, law, update))
                        (ground (arith, law, update)) (λ p. ground (arith, e', p.5, p.6))
                ]
          ]
        ]
  ]

-- the row without its content
abbrev pub with_erased : ℕ → ℕ → ℕ → Store → Store
with_erased now u i s = record s { messages = update_where (is_own i u) (erased now) s.messages }

pub delete_message_lem :
    (now u i : ℕ) (s : Store)
    → delete_message now u i s ≡ (
      if any (is_own i u) s.messages
          then ok tt
          else err (not_found "message not found or not authorized"),
      with_erased now u i s,
    )
unfolding delete_message
delete_message_lem now u i s = ground arith
