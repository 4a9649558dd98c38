-- ===== src/Contacts/Blocks/Refusals.antt =====
-- What a block does to the messages of a private chat: block_user of
-- crates/api/src/handlers/blocks/handlers.rs and send_message of
-- crates/infrastructure/src/repositories/chat.rs.
use mesty_api.Common.{
  ℕ, ◌≡◌, refl, inl, inr, true, false, some, List, [], ◌∷◌, ◌&&◌, ◌||◌, ◌==◌, ==_iff, ==_refl, not,
  any, if◌then◌else◌, arith, Bool-cases,
}
use mesty_api.DomainError.{Result, ok, err, unauthorized, validation}
use mesty_api.Keys.Store.{Block}
use mesty_api.Chat.Store.{ChatRow, Participant, is_active, is_private}
use mesty_api.Messages.Store.{Message, Store}
use mesty_api.Messages.Queries.{NewMessage, is_between, is_apart, send_message}
use mesty_api.Messages.Sending.{chat_of, send_message_lem}
use mesty_api.Contacts.Blocks.{
  is_block, is_user_blocked, new_block, insert_block, add_block, own_block, already_blocked,
  blocked_created, block_user,
}

module _ (u v : ℕ) where
  is_between-is_block :
      (bs : List Block)
      → any (is_block u v) bs ≡ true
      → (any (is_between u v) bs ≡ true) × (any (is_between v u) bs ≡ true)
  is_between-is_block [] h = absurd (ground arith)
  is_between-is_block (b ∷ bs) h = elim (Bool-cases (is_block u v b)) [
    | inl e ↦ (ground arith, ground arith)
    | inr e ↦
        let (first, second) = is_between-is_block bs (ground arith) in
        (ground (arith, first), ground (arith, second))
  ]

  apart :
      (c : ℕ) (s : Store) (ps : List Participant)
      → any (is_between u v) s.user_blocks ≡ true
      → (v == u) ≡ false
      → any (is_active c v) ps ≡ true
      → any (is_apart u c s) ps ≡ true
  apart c s [] b d h = absurd (ground arith)
  apart c s (p ∷ ps) b d h = elim (Bool-cases (is_active c v p)) [
    | inl e ↦
        let same : p.user_id ≡ v = (==_iff p.user_id v).0 (ground arith) in rw same (ground arith)
    | inr e ↦ ground (arith, apart c s ps b d (ground arith))
  ]

any-both :
    (u v id : ℕ) (bs : List Block)
    → any (λ c. is_block u v c || c.id == id) bs
      ≡ (any (is_block u v) bs || any (λ (c : Block). c.id == id) bs)
any-both u v id [] = refl
any-both u v id (b ∷ bs) = ground (arith, any-both u v id bs)

insert_block_lem :
    (b : Block) (s : Store)
    → (b.blocker_id == b.blocked_id) ≡ false
    → any (λ c. is_block b.blocker_id b.blocked_id c || c.id == b.id) s.user_blocks ≡ false
    → insert_block b s ≡ (
        if not
          (any (λ w. w == b.blocker_id) s.chat.users && any (λ w. w == b.blocked_id) s.chat.users)
        then (err (validation "Referenced resource not found"), s)
        else (ok tt, record s { user_blocks = b ∷ s.user_blocks }))
unfolding insert_block
insert_block_lem b s d n = rw (d, n) refl

block_user_lem :
    (id now u v : ℕ) (s : Store)
    → block_user id now u v s ≡ (
        if v == u
        then (ok own_block, s)
        else if any (is_block u v) s.user_blocks
        then (ok already_blocked, s)
        else let (r, t) = insert_block (new_block id now u v) s in
          elim r [ ok _ ↦ (ok (blocked_created id v), t) | err e ↦ (err e, t) ])
unfolding block_user is_user_blocked add_block
block_user_lem id now u v s = ground arith

-- the block that was written
block_user_done :
    (id now u v : ℕ) (s t : Store) (i w : ℕ)
    → block_user id now u v s ≡ (ok (blocked_created i w), t)
    → any (λ (b : Block). b.id == id) s.user_blocks ≡ false
    → ((v == u) ≡ false) × (t ≡ record s { user_blocks = new_block id now u v ∷ s.user_blocks })
block_user_done id now u v s t i w e fresh =
    let law = block_user_lem id now u v s in
    elim (Bool-cases (v == u || any (is_block u v) s.user_blocks)) [
      | inl no_block ↦ absurd (ground (arith, law))
      | inr new ↦
          let insert =
            insert_block_lem (new_block id now u v) s (ground arith)
              (ground (arith, any-both u v id s.user_blocks)) in
          (ground arith, ground (arith, law, insert))
    ]

-- a message in a private chat to a user who is blocked or blocks
refused :
    (id now u v c : ℕ) (m : NewMessage) (t : Store) (r : ChatRow)
    → chat_of u c t ≡ some r
    → is_private r ≡ true
    → any (is_active c v) t.chat.participants ≡ true
    → any (is_between u v) t.user_blocks ≡ true
    → (v == u) ≡ false
    → send_message id now u c m t
      ≡ (err (unauthorized "cannot send messages in blocked private chat"), t)
refused id now u v c m t r here kind other blocked distinct = ground (
  arith,
  send_message_lem id now u c m t r here,
  apart u v c t t.chat.participants blocked distinct other,
)

-- Once `block_user` has answered with a block, under an id that was free, neither of the two users can
-- send the other a message in a private chat of theirs: each message is refused and changes nothing.
pub send_message-block_user :
    (block_id at u v : ℕ) (s t : Store) (i w : ℕ) (id now c : ℕ) (m : NewMessage) (r : ChatRow)
    → block_user block_id at u v s ≡ (ok (blocked_created i w), t)
    → any (λ (b : Block). b.id == block_id) s.user_blocks ≡ false
    → chat_of u c t ≡ some r
    → chat_of v c t ≡ some r
    → is_private r ≡ true
    → let answer : Result Message × Store =
        (err (unauthorized "cannot send messages in blocked private chat"), t) in
      (send_message id now u c m t ≡ answer) × (send_message id now v c m t ≡ answer)
send_message-block_user block_id at u v s t i w id now c m r e fresh of_u of_v kind =
    let (distinct, done) = block_user_done block_id at u v s t i w e fresh in
    let there : any (is_block u v) t.user_blocks ≡ true =
      rw done (ground (arith, ==_refl u, ==_refl v)) in
    let (uv, vu) = is_between-is_block u v t.user_blocks there in
    (
      refused id now u v c m t r of_u kind (ground (arith, of_v)) uv distinct,
      refused id now v u c m t r of_v kind (ground (arith, of_u)) vu (ground arith),
    )
