-- ===== src/Messages/Sending.antt =====
-- Who may send a message, and what sending does: send_message of
-- crates/infrastructure/src/repositories/chat.rs.
pub mod Delivery
use mesty_api.Common.{
  ℕ, ◌≡◌, ◌≢◌, refl, inl, inr, Bool, true, false, Option, none, some, ◌∷◌, ◌&&◌, ◌||◌, ◌==◌, not,
  any, find?, if◌then◌else◌, arith, Option-cases, Bool-cases,
}
use mesty_api.DomainError.{
  validation, not_found, unauthorized, ok, err, Guarded, Guarded-ok, Guarded-err,
}
use mesty_api.Chat.Store.{ChatRow, is_active, is_live, is_private}
use mesty_api.Messages.Store.{Message, Store, is_message_type, has_content, is_consistent}
use mesty_api.Messages.Queries.{
  ensure_active_membership, is_apart, ensure_not_blocked_in_private_chat, ensure_not_blocked_in,
  NewMessage, new_message, refers, insert_message, insert_statuses, lacks_content, send_message,
}

-- the chat that a participant writes to
abbrev pub chat_of : ℕ → ℕ → Store → Option ChatRow
chat_of u c s =
    if any (is_active c u) s.chat.participants then find? (is_live c) s.chat.chats else none

-- the constraints of `messages`
abbrev pub fits : Message → Store → Bool
fits n s =
    is_message_type n.message_type
    && has_content n
    && is_consistent n
    && not (any (λ (o : Message). o.id == n.id) s.messages)
    && refers n s

insert_message-fits :
    (n : Message) (s : Store)
    → fits n s ≡ true
    → insert_message n s ≡ (ok tt, record s { messages = n ∷ s.messages })
unfolding insert_message
insert_message-fits n s h = ground arith

insert_message-misfits :
    (n : Message) (s : Store)
    → fits n s ≡ false
    → ((insert_message n s).1 ≡ s) × ((x : Unit {0}) → (insert_message n s).0 ≢ ok x)
unfolding insert_message
insert_message-misfits n s h = (ground arith, λ x. ground arith)

-- An active participant of a live chat sends a well-formed message; in a private chat neither user has
-- blocked the other.
abbrev pub MaySend : ℕ → ℕ → ℕ → ℕ → NewMessage → Store → Type 0
MaySend id now u c m s =
    (r : ChatRow) × (chat_of u c s ≡ some r)
    × (is_private r && any (is_apart u c s) s.chat.participants ≡ false)
    × (lacks_content m ≡ false)
    × (fits (new_message id now u c m) s ≡ true)

-- the message, and a status of each active participant
abbrev pub with_message : ℕ → ℕ → ℕ → ℕ → NewMessage → Store → Store
with_message id now u c m s = record s {
  messages = new_message id now u c m ∷ s.messages;
  statuses = insert_statuses now id c s.chat.participants s.statuses;
}

send_message_stranger :
    (id now u c : ℕ) (m : NewMessage) (s : Store)
    → chat_of u c s ≡ none
    → send_message id now u c m s ≡ (err (not_found "chat not found or not a participant"), s)
unfolding send_message ensure_active_membership
send_message_stranger id now u c m s e = ground (arith, e)

module _ (id now u c : ℕ) (m : NewMessage) (s : Store) (r : ChatRow)
    (e : chat_of u c s ≡ some r) where
  pub send_message_lem : send_message id now u c m s ≡ (
      if is_private r && any (is_apart u c s) s.chat.participants
      then (err (unauthorized "cannot send messages in blocked private chat"), s)
      else if lacks_content m
      then (err (validation "text messages require content_encrypted and content_iv"), s)
      else let (x, t) = insert_message (new_message id now u c m) s in
        elim x [
          | ok _ ↦ (
            ok (new_message id now u c m),
            record t { statuses = insert_statuses now id c t.chat.participants t.statuses },
          )
          | err y ↦ (err y, t)
        ])
  unfolding send_message ensure_active_membership ensure_not_blocked_in
      ensure_not_blocked_in_private_chat is_private
  send_message_lem = ground (arith, e)

-- what it does, in the words of the queries
pub send_message-with_message :
    (id now u c : ℕ) (m : NewMessage) (s : Store)
    → Guarded s
        (MaySend id now u c m s)
        (λ x t. (x ≡ new_message id now u c m) × (t ≡ with_message id now u c m s))
        (send_message id now u c m s)
send_message-with_message id now u c m s = elim (Option-cases (chat_of u c s)) [
  | inl e ↦
      Guarded-err _ _ _ _ (λ x. ground (arith, send_message_stranger id now u c m s e))
        (ground (arith, send_message_stranger id now u c m s e)) (λ p. ground (arith, e, p.1))
  | inr (r, e) ↦
      let n = new_message id now u c m in
      let law = send_message_lem id now u c m s r e in
      elim (Bool-cases
        (is_private r && any (is_apart u c s) s.chat.participants || lacks_content m)) [
          | inl refused ↦
              Guarded-err _ _ _ _ (λ x. ground (arith, law)) (ground (arith, law))
                (λ p. ground (arith, e, p.1, p.2, p.3))
          | inr may ↦ elim (Bool-cases (fits n s)) [
            | inl f ↦
                Guarded-ok _ _ _ _ {a = n} {t = with_message id now u c m s}
                  (ground (arith, law, insert_message-fits n s f))
                  (r, e, ground arith, ground arith, f) (refl, refl)
            | inr f ↦
                let (same, fails) = insert_message-misfits n s f in
                Guarded-err _ _ _ _ (λ x. ground (arith, law, fails tt))
                  (ground (arith, law, same, fails tt)) (λ p. ground arith)
          ]
        ]
]
