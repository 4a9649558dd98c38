-- ===== src/Messages/Statuses.antt =====
-- The rows of `message_status` that send_message of crates/infrastructure/src/repositories/chat.rs
-- writes.
use mesty_api.Common.{
  ℕ, ◌+◌, ◌≡◌, ◌++◌, ==_refl, count, if◌then◌else◌, is_none, All, refl, inl, inr, Bool, false, List,
  [], ◌∷◌, ◌&&◌, ◌||◌, ◌==◌, ==_iff, not, any, arith, Bool-cases,
}
use mesty_api.Chat.Store.{Participant, is_active}
use mesty_api.Messages.Store.{StatusRow, sent, is_read}
use mesty_api.Messages.Queries.{is_status, insert_statuses}

-- a status of the user that is not read
abbrev pub is_unread : ℕ → ℕ → StatusRow → Bool
is_unread i u r = is_status i u r && not (is_read r.status)

module _ (now i c u : ℕ) where
  none_unread :
      (rows : List StatusRow) → any (is_status i u) rows ≡ false → any (is_unread i u) rows ≡ false
  none_unread [] h = refl
  none_unread (r ∷ rs) h = ground (arith, none_unread rs)

  -- the statuses of a user are those of before and, for an active participant, a new one
  pub any-insert_statuses :
      (ps : List Participant) (rows : List StatusRow)
      → any (is_status i u) (insert_statuses now i c ps rows)
        ≡ (any (is_status i u) rows || any (is_active c u) ps)
  any-insert_statuses [] rows = ground arith
  any-insert_statuses (p ∷ ps) rows = elim (Bool-cases (p.user_id == u)) [
    | inl e ↦
        let same : p.user_id ≡ u = (==_iff p.user_id u).0 e in
        rw same (ground (arith, any-insert_statuses ps rows))
    | inr e ↦ ground (arith, any-insert_statuses ps rows)
  ]

  -- a new status is not read
  pub unread-insert_statuses :
      (ps : List Participant) (rows : List StatusRow)
      → any (is_status i u) rows ≡ false
      → any (is_unread i u) (insert_statuses now i c ps rows)
        ≡ any (is_status i u) (insert_statuses now i c ps rows)
  unread-insert_statuses [] rows fresh = ground (arith, none_unread rows fresh)
  unread-insert_statuses (p ∷ ps) rows fresh = ground (arith, unread-insert_statuses ps rows fresh)

  -- how many statuses of the message a user has
  pub count-insert_statuses :
      (ps : List Participant) (rows : List StatusRow)
      → count (is_status i u) (insert_statuses now i c ps rows)
        ≡ count (is_status i u) rows
          + (if any (is_active c u) ps && not (any (is_status i u) rows) then 1 else 0)
  count-insert_statuses [] rows = ground arith
  count-insert_statuses (p ∷ ps) rows = elim (Bool-cases (p.user_id == u)) [
    | inl e ↦
        let same : p.user_id ≡ u = (==_iff p.user_id u).0 e in
        rw same (
          ground (
            arith,
            ==_refl i,
            ==_refl u,
            count-insert_statuses ps rows,
            any-insert_statuses ps rows,
          ))
    | inr e ↦ ground (arith, count-insert_statuses ps rows)
  ]

-- a row that the message gets when it is sent
abbrev pub IsSent : ℕ → ℕ → StatusRow → Type 0
IsSent now i r = (r.message_id ≡ i) × (r.status ≡ sent) × (r.updated_at ≡ now)

-- the rows of before stay behind the new ones
pub insert_statuses-IsSent :
    (now i c : ℕ) (ps : List Participant) (rows : List StatusRow)
    → (added : List StatusRow) × (insert_statuses now i c ps rows ≡ added ++ rows)
      × All (IsSent now i) added
insert_statuses-IsSent now i c [] rows = ([], refl, tt)
insert_statuses-IsSent now i c (p ∷ ps) rows =
    let (added, e, each) = insert_statuses-IsSent now i c ps rows in
    elim (Bool-cases (
      p.chat_id == c
      && is_none p.left_at
      && not (any (is_status i p.user_id) (insert_statuses now i c ps rows)))) [
        | inl h ↦
            let new : StatusRow = record {
              message_id = i;
              user_id = p.user_id;
              status = sent;
              updated_at = now;
            } in
            (new ∷ added, ground (arith, h, e), ((refl, refl, refl), each))
        | inr h ↦ (added, ground (arith, h, e), each)
      ]
