-- ===== src/Messages/Editing/Contents.antt =====
-- When a message is edited, and the row that it becomes: edit_message of
-- crates/infrastructure/src/repositories/chat.rs, written out column by column.
use mesty_api.Common.{
  ℕ, ◌≡◌, ◌∙◌, ap, sym, refl, Bool, true, false, String, Option, none, some, ◌&&◌, ◌||◌, ◌==◌, any,
  find?, is_none, is_some, not, str_eq, subst, if◌then◌else◌, update_where, arith,
}
use mathlib.Core.Path.{fun_ext}
use mesty_api.DomainError.{Result, ok, err, Guarded}
use mesty_api.Chat.Store.{ChatRow}
use mesty_api.Messages.Store.{Message, Store, has_content, is_consistent}
use mesty_api.Messages.Queries.{edited, edit_message}
use mesty_api.Messages.Sending.Delivery.{takes_part}
use mesty_api.Messages.Editing.{MayEdit, row_of, with_edit, edit_message-with_edit}

-- The row after the edit: the content and the vector are those that are given or, if one is not given,
-- the old one, and the time of the edit is set; the other columns stay.
abbrev pub rewritten : ℕ → Option String → Option String → Message → Message
rewritten now content iv m = record {
  id = m.id;
  chat_id = m.chat_id;
  sender_id = m.sender_id;
  reply_to_id = m.reply_to_id;
  content_encrypted = elim content [ none ↦ m.content_encrypted | some x ↦ some x ];
  content_iv = elim iv [ none ↦ m.content_iv | some x ↦ some x ];
  message_type = m.message_type;
  metadata = m.metadata;
  is_forwarded = m.is_forwarded;
  created_at = m.created_at;
  edited_at = some now;
  deleted_at = m.deleted_at;
}

-- the checks of the table on a row: a text has both, unless it is deleted, and no row has only one
abbrev pub is_complete : Message → Bool
is_complete m =
    (not (str_eq m.message_type "text")
      || is_some m.deleted_at
      || is_some m.content_encrypted && is_some m.content_iv)
    && (if is_none m.content_encrypted then is_none m.content_iv else not (is_none m.content_iv))

-- The sender of a message that is not deleted takes part in its live chat, gives a content or a vector, and
-- the row that becomes of it passes the checks.
pub record IsEditable (now u i : ℕ) (content iv : Option String) (s : Store) : Type 0 where
  pub own : Message
  pub found :
      find?
        (λ (m : Message).
          m.id == i && elim m.sender_id [ none ↦ false | some v ↦ v == u ] && is_none m.deleted_at)
        s.messages
      ≡ some own
  pub member : takes_part u own.chat_id s ≡ true
  pub live : any (λ (r : ChatRow). r.id == own.chat_id && is_none r.deleted_at) s.chat.chats ≡ true
  pub given : (is_none content && is_none iv) ≡ false
  pub old : Message
  pub stored : row_of i s ≡ some old
  pub valid : is_complete (rewritten now content iv old) ≡ true

same_row :
    (now : ℕ) (content iv : Option String) (m : Message)
    → edited now content iv m ≡ rewritten now content iv m
same_row now none none m = refl
same_row now none (some y) m = refl
same_row now (some x) none m = refl
same_row now (some x) (some y) m = refl

module _ (now u i : ℕ) (content iv : Option String) (s : Store) where
  -- The row with the id is replaced by what `rewritten` says, and is the answer.
  abbrev pub Edited : Message → Store → Type 0
  Edited x t =
      (old : Message) × (row_of i s ≡ some old)
      × (x ≡ rewritten now content iv old)
      × (t ≡ record s {
        messages = update_where (λ m. m.id == i) (rewritten now content iv) s.messages;
      })

  allowed : MayEdit now u i content iv s → IsEditable now u i content iv s
  unfolding has_content is_consistent
  allowed (own, old, found, member, given, stored, valid) = record {
    own = own;
    found = found;
    member = ground arith;
    live = ground arith;
    given = given;
    old = old;
    stored = stored;
    valid = subst (λ r. is_complete r ≡ true) (same_row now content iv old) valid;
  }

  may_edit : IsEditable now u i content iv s → MayEdit now u i content iv s
  unfolding has_content is_consistent
  may_edit e = (
    e.own,
    e.old,
    e.found,
    ground (arith, e.member, e.live),
    e.given,
    e.stored,
    subst (λ r. is_complete r ≡ true) (sym (same_row now content iv e.old)) e.valid,
  )

  done :
      (x : Message) (t : Store)
      → ((old : Message) × (row_of i s ≡ some old)
          × (x ≡ edited now content iv old)
          × (t ≡ with_edit now i content iv s))
      → Edited x t
  done x t (old, stored, answer, e) =
      let same = fun_ext (same_row now content iv) in
      (
        old,
        stored,
        answer ∙ same_row now content iv old,
        e
            ∙ ap
                (λ f. record s {
                  messages = update_where (λ (m : Message). m.id == i) f s.messages;
                })
                same,
      )

  Guarded-Edited :
      (r : Result Message × Store)
      → Guarded s
          (MayEdit now u i content iv s)
          (λ x t.
            (old : Message) × (row_of i s ≡ some old)
            × (x ≡ edited now content iv old)
            × (t ≡ with_edit now i content iv s))
          r
      → Guarded s (IsEditable now u i content iv s) Edited r
  Guarded-Edited (ok x, t) (p, q) = (allowed p, done x t q)
  Guarded-Edited (err y, t) (n, same) = ((λ a. n (may_edit a)), same)

  -- `edit_message` succeeds exactly for the sender of a message that is not deleted, who still takes
  -- part in its chat, with a content or an initialisation vector and as far as the row keeps its checks;
  -- then of these two what is given is replaced, the time of the edit is set and the rest of the row
  -- stays. Otherwise nothing changes.
  pub edit_message-Guarded :
      Guarded s (IsEditable now u i content iv s) Edited (edit_message now u i content iv s)
  edit_message-Guarded =
      Guarded-Edited (edit_message now u i content iv s)
        (edit_message-with_edit now u i content iv s)
