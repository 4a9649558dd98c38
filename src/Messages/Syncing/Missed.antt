-- ===== src/Messages/Syncing/Missed.antt =====
-- What a member receives who asks for the missed messages: send_message of
-- crates/infrastructure/src/repositories/chat.rs, then SyncRequest of
-- crates/api/src/handlers/ws/handlers.rs.
use mesty_api.Common.{
  ℕ, zero, suc, ◌≤◌, ◌<◌, ◌≡◌, refl, ap, sym, ◌∙◌, subst, inl, inr, Bool, true, some, List, [], ◌∷◌,
  ◌++◌, ◌&&◌, any, count, is_none, ltb, leb, length, map, take, select_where, order_with,
  insert_with, arith, Bool-cases,
}
use mesty_api.DomainError.{ok, Guarded}
use mesty_api.Chat.Store.{is_active}
use mesty_api.Messages.Store.{Message, Store}
use mesty_api.Messages.Queries.{NewMessage, send_message}
use mesty_api.Messages.Sending.{MaySend, with_message, send_message-with_message}
use mesty_api.Messages.Sending.Delivery.{sent_row, takes_part}
use mesty_api.Messages.Syncing.{
  is_since, is_older, missed, list_messages_since, SyncedMessage, to_synced, sync_messages_after,
  sync_request,
}

module _ {A : Type 0} where
  -- a row stands behind those that go before it
  insert_with-split :
      (first : A → A → Bool) (x : A) (xs : List A)
      → (pre post : List A) × (insert_with first x xs ≡ pre ++ x ∷ post)
        × (length pre ≤ count (λ y. first y x) xs)
  insert_with-split first x [] = ([], [], refl, omega arith)
  insert_with-split first x (y ∷ ys) = elim (Bool-cases (first y x)) [
    | inl e ↦
        let (pre, post, same, few) = insert_with-split first x ys in
        (y ∷ pre, post, ground (arith, e, same), ground (arith, e, few))
    | inr e ↦ ([], y ∷ ys, ground (arith, e), omega arith)
  ]

  count-insert_with :
      (q : A → Bool) (first : A → A → Bool) (x : A) (xs : List A)
      → count q (insert_with first x xs) ≡ count q (x ∷ xs)
  count-insert_with q first x [] = refl
  count-insert_with q first x (y ∷ ys) = ground (arith, count-insert_with q first x ys)

  count-order_with :
      (q : A → Bool) (first : A → A → Bool) (xs : List A)
      → count q (order_with first xs) ≡ count q xs
  count-order_with q first [] = refl
  count-order_with q first (x ∷ xs) =
      ground (arith, count-insert_with q first x (order_with first xs), count-order_with q first xs)

  count-select_where :
      (p q : A → Bool) (xs : List A) → count q (select_where p xs) ≡ count (λ x. p x && q x) xs
  count-select_where p q [] = refl
  count-select_where p q (x ∷ xs) = ground (arith, count-select_where p q xs)

  length-take_le : (n : ℕ) (xs : List A) → length (take n xs) ≤ n
  length-take_le zero xs = omega arith
  length-take_le (suc n) [] = omega arith
  length-take_le (suc n) (x ∷ xs) = ground (arith, length-take_le n xs)

  take-split :
      (n : ℕ) (pre : List A) (x : A) (post : List A)
      → length pre < n
      → (rest : List A) × (take n (pre ++ x ∷ post) ≡ pre ++ x ∷ rest)
  take-split zero pre x post h = absurd (omega arith)
  take-split (suc n) [] x post h = (take n post, refl)
  take-split (suc n) (y ∷ pre) x post h =
      let (rest, e) = take-split n pre x post (omega arith) in (rest, ap (λ r. y ∷ r) e)

length-map : {A B : Type 0} (f : A → B) (xs : List A) → length (map f xs) ≡ length xs
length-map f [] = refl
length-map f (x ∷ xs) = ap suc (length-map f xs)

map-split :
    {A B : Type 0} (f : A → B) (pre : List A) (x : A) (post : List A)
    → map f (pre ++ x ∷ post) ≡ map f pre ++ f x ∷ map f post
map-split f [] x post = refl
map-split f (y ∷ pre) x post = ap (λ r. f y ∷ r) (map-split f pre x post)

sync_request_lem :
    (u since : ℕ) (s : Store)
    → sync_request u (some since) s ≡ map to_synced (take 100 (missed u since s))
unfolding sync_request sync_messages_after list_messages_since
sync_request_lem u since s = refl

-- the entry of a message that user u sends to chat c
abbrev pub entry : ℕ → ℕ → ℕ → ℕ → NewMessage → SyncedMessage
entry id now u c m = record {
  chat_id = c;
  message_id = id;
  sender_id = some u;
  content_encrypted = m.content_encrypted;
  content_iv = m.content_iv;
  message_type = m.message_type;
  created_at = now;
}

-- a live message of a chat in which the user takes part, later than one time and not than another
abbrev pub waits_before : ℕ → ℕ → ℕ → Store → Message → Bool
waits_before v since now s n =
    (takes_part v n.chat_id s && ltb since n.created_at && is_none n.deleted_at)
    && leb n.created_at now

-- the messages up to the second time for which the user waits
abbrev pub waiting : ℕ → ℕ → ℕ → Store → ℕ
waiting v since now s = count (waits_before v since now s) s.messages

-- the answer holds the entry
abbrev pub Holds : SyncedMessage → List SyncedMessage → Type 0
Holds e answer = (pre post : List SyncedMessage) × (answer ≡ pre ++ e ∷ post)

module _ (v since now : ℕ) (s : Store) where
  earlier-waiting :
      (rows : List Message)
      → count
          (λ (n : Message).
            (takes_part v n.chat_id s && ltb since n.created_at && is_none n.deleted_at)
            && ltb n.created_at now)
          rows
        ≤ count (waits_before v since now s) rows
  earlier-waiting [] = omega arith
  earlier-waiting (n ∷ ns) = ground (arith, earlier-waiting ns)

at_most_100 : (v since : ℕ) (s : Store) → length (sync_request v (some since) s) ≤ 100
at_most_100 v since s =
    rw (sync_request_lem v since s, length-map to_synced (take 100 (missed v since s)))
      (length-take_le 100 (missed v since s))

module _ (id now u c : ℕ) (m : NewMessage) (s : Store) (v since : ℕ) where
  received :
      any (is_active c v) s.chat.participants ≡ true
      → since < now
      → waiting v since now s < 100
      → Holds (entry id now u c m) (sync_request v (some since) (with_message id now u c m s))
  received member later few =
      let t = with_message id now u c m s in
      let new = sent_row id now u c m in
      let rest = select_where (is_since v since s) s.messages in
      let rows : missed v since t ≡ insert_with is_older new (order_with is_older rest) =
        ground (arith, member) in
      let (pre, post, split, short) = insert_with-split is_older new (order_with is_older rest) in
      let counted =
        count-order_with (λ (n : Message). is_older n new) is_older rest
        ∙ count-select_where (is_since v since s) (λ (n : Message). is_older n new) s.messages in
      let (tail, cut) =
        take-split 100 pre new post
          (ground (arith, short, counted, few, earlier-waiting v since now s s.messages)) in
      (
        map to_synced pre,
        map to_synced tail,
        sync_request_lem v since t
            ∙ ap (λ ms. map to_synced (take 100 ms)) (rows ∙ split)
            ∙ ap (map to_synced) cut
            ∙ map-split to_synced pre new tail,
      )

-- After send_message has stored a message, each active member of the chat who asks for the messages after
-- an earlier time receives its content, vector, type, sender, chat, id and time as they were sent, if
-- fewer than 100 other messages wait for the member that are not later than it. No answer holds more
-- than 100 messages.
pub sync_request-send_message :
    (id now u c : ℕ) (m : NewMessage) (s t : Store) (x : Message) (v since : ℕ)
    → send_message id now u c m s ≡ (ok x, t)
    → takes_part v c t ≡ true
    → since < now
    → waiting v since now s < 100
    → Holds (entry id now u c m) (sync_request v (some since) t)
      × (length (sync_request v (some since) t) ≤ 100)
sync_request-send_message id now u c m s t x v since sent member later few =
    let (allowed, (same, e)) =
      subst (Guarded s (MaySend id now u c m s) _) sent
        (send_message-with_message id now u c m s) in
    let there : takes_part v c s ≡ true = subst (λ (r : Store). takes_part v c r ≡ true) e member in
    (
      subst (λ r. Holds (entry id now u c m) (sync_request v (some since) r)) (sym e)
          (received id now u c m s v since there later few),
      at_most_100 v since t,
    )
