-- ===== src/Messages/Reading.antt =====
-- What counts as unread: mark_messages_read (migrations/014_message_read_function.sql) against the
-- unread_count of list_chats_for_user (crates/infrastructure/src/repositories/chat.rs).
use mesty_api.Common.{
  ℕ, ◌≤◌, ◌≡◌, refl, subst, Bool, true, false, List, [], ◌∷◌, ◌&&◌, ◌==◌, ==_iff, not, any, count,
  is_none, arith, All, update_where,
}
use mesty_api.DomainError.{ok, Guarded}
use mesty_api.Messages.Store.{Message, StatusRow, read, Store, is_from_other, is_read}
use mesty_api.Messages.Queries.{
  NewMessage, is_status, send_message, is_readable, is_marked, mark_messages_read, unread_count,
}
use mesty_api.Messages.Sending.{MaySend, send_message-with_message}
use mesty_api.Messages.Statuses.{is_unread, any-insert_statuses, unread-insert_statuses}

module _ {A : Type 0} (q p : A → Bool) (f : A → A) where
  any_of_unchanged :
      (xs : List A)
      → ((x : A) → q x ≡ true → p x ≡ false)
      → any q xs ≡ true
      → any q (update_where p f xs) ≡ true
  any_of_unchanged [] h e = e
  any_of_unchanged (x ∷ xs) h e = ground (arith, h x, any_of_unchanged xs h)

  count-update_where_all :
      (xs : List A)
      → ((x : A) → q x ≡ true → p x ≡ true)
      → ((x : A) → p x ≡ true → q (f x) ≡ false)
      → count q (update_where p f xs) ≡ 0
  count-update_where_all [] h g = refl
  count-update_where_all (x ∷ xs) h g = ground (arith, h x, g x, count-update_where_all xs h g)

  count_pos : (xs : List A) → ((x : A) → q x ≡ true → p x ≡ true) → any q xs ≡ true → 1 ≤ count p xs
  count_pos [] h e = absurd (ground arith)
  count_pos (x ∷ xs) h e = ground (arith, h x, count_pos xs h)

-- the statuses after `mark_messages_read`
abbrev pub marked : ℕ → ℕ → ℕ → ℕ → Store → Store
marked now u c up_to s = record s {
  statuses =
      update_where (is_marked u c up_to s) (λ r. record r { status = read; updated_at = now })
        s.statuses;
}

mark_messages_read_lem :
    (now u c up_to : ℕ) (s : Store)
    → (mark_messages_read now u c up_to s).1 ≡ marked now u c up_to s
unfolding mark_messages_read
mark_messages_read_lem now u c up_to s = refl

-- the user's unread messages that others have sent to the chat up to a time
abbrev pub is_missed : ℕ → ℕ → ℕ → Store → StatusRow → Bool
is_missed u c up_to s r =
    r.user_id == u
    && any (λ m. m.id == r.message_id && is_readable u c up_to s m) s.messages
    && not (is_read r.status)

-- After `mark_messages_read` no message that others have sent to the chat up to the time is unread for
-- an active participant.
pub mark_messages_read-none_missed :
    (now u c up_to : ℕ) (s : Store)
    → let t = (mark_messages_read now u c up_to s).1 in count (is_missed u c up_to t) t.statuses ≡ 0
mark_messages_read-none_missed now u c up_to s = rw (mark_messages_read_lem now u c up_to s) (
    count-update_where_all (is_missed u c up_to s) (is_marked u c up_to s) _ s.statuses
      (λ r h. ground arith) (λ r h. ground arith))

-- the calls of one user, each with its time, chat and bound
pub mark_all : ℕ → List (ℕ × ℕ × ℕ) → Store → Store
mark_all u [] s = s
mark_all u ((now, c, up_to) ∷ calls) s = mark_all u calls (mark_messages_read now u c up_to s).1

-- a message of the user's own that is unread
record OwnUnread (i u c : ℕ) (s : Store) : Type 0 where
  own : All (λ (n : Message). (n.id == i) && is_from_other u n ≡ false) s.messages
  here :
      any (λ (n : Message). n.id == i && n.chat_id == c && is_none n.deleted_at) s.messages ≡ true
  unread : any (is_unread i u) s.statuses ≡ true

module _ (i u : ℕ) where
  not_readable :
      (c up_to : ℕ) (s : Store) (ms : List Message)
      → All (λ (n : Message). (n.id == i) && is_from_other u n ≡ false) ms
      → any (λ m. m.id == i && is_readable u c up_to s m) ms ≡ false
  not_readable c up_to s [] h = refl
  not_readable c up_to s (m ∷ ms) (h, hs) = ground (arith, not_readable c up_to s ms hs)

  not_marked :
      (c up_to : ℕ) (s : Store) (r : StatusRow)
      → All (λ (n : Message). (n.id == i) && is_from_other u n ≡ false) s.messages
      → is_unread i u r ≡ true
      → is_marked u c up_to s r ≡ false
  not_marked c up_to s r h e =
      let same : r.message_id ≡ i = (==_iff r.message_id i).0 (ground arith) in
      rw same (ground (arith, not_readable c up_to s s.messages h))

  mark_keeps :
      (now c' c up_to : ℕ) (s : Store)
      → OwnUnread i u c s
      → OwnUnread i u c (mark_messages_read now u c' up_to s).1
  mark_keeps now c' c up_to s h = rw (mark_messages_read_lem now u c' up_to s) (record {
    own = h.own;
    here = h.here;
    unread =
        any_of_unchanged (is_unread i u) (is_marked u c' up_to s) _ s.statuses
          (λ r e. not_marked c' up_to s r h.own e) h.unread;
  })

  mark_all_keeps :
      (c : ℕ) (calls : List (ℕ × ℕ × ℕ)) (s : Store)
      → OwnUnread i u c s
      → OwnUnread i u c (mark_all u calls s)
  unfolding mark_all
  mark_all_keeps c [] s h = h
  mark_all_keeps c ((now, c', up_to) ∷ calls) s h =
      mark_all_keeps c calls _ (mark_keeps now c' c up_to s h)

  unread_count_pos : (c : ℕ) (s : Store) → OwnUnread i u c s → 1 ≤ unread_count u c s
  unfolding unread_count
  unread_count_pos c s h =
      count_pos (is_unread i u) _ (λ r. r) s.statuses (λ r e. counts r e) h.unread
    where
      counts :
          (r : StatusRow)
          → is_unread i u r ≡ true
          → (r.user_id == u
              && any
                  (λ (m : Message). m.id == r.message_id && m.chat_id == c && is_none m.deleted_at)
                  s.messages
              && not (is_read r.status))
            ≡ true
      counts r e =
          let same : r.message_id ≡ i = (==_iff r.message_id i).0 (ground arith) in
          rw same (ground (arith, h.here))

  others_own :
      (ms : List Message)
      → any (λ (n : Message). n.id == i) ms ≡ false
      → All (λ (n : Message). (n.id == i) && is_from_other u n ≡ false) ms
  others_own [] h = tt
  others_own (m ∷ ms) h = (ground arith, others_own ms (ground arith))

-- A message counts as unread for its own sender, however often the sender marks messages as read.
pub send_message-stays_unread :
    (i now u c : ℕ) (m : NewMessage) (s t : Store) (x : Message) (calls : List (ℕ × ℕ × ℕ))
    → send_message i now u c m s ≡ (ok x, t)
    → any (is_status i u) s.statuses ≡ false
    → 1 ≤ unread_count u c (mark_all u calls t)
send_message-stays_unread i now u c m s t x calls sent fresh =
    let ((r, here, apart, content, fit), (same, e)) =
      subst (Guarded s (MaySend i now u c m s) _) sent (send_message-with_message i now u c m s) in
    unread_count_pos i u c _ (
      mark_all_keeps i u c calls t (
        rw e (record {
          own = (ground arith, others_own i u s.messages (ground arith));
          here = ground arith;
          unread = ground (
            arith,
            here,
            any-insert_statuses now i c u s.chat.participants s.statuses,
            unread-insert_statuses now i c u s.chat.participants s.statuses fresh,
          );
        })))
