-- ===== src/Messages/Notifying.antt =====
-- Who is told of a new message: publish_message_event of crates/api/src/handlers/chats/handlers.rs.
use mesty_api.Common.{
  ℕ, ◌+◌, ◌≡◌, refl, inl, inr, Bool, List, [], ◌∷◌, ◌&&◌, ◌==◌, ==_iff, not, count, if◌then◌else◌,
  arith, Bool-cases, is_none, select_where, map,
}
use mesty_api.Chat.Store.{is_active, Participant, chat_event}
use mesty_api.Messages.Store.{Message, PushJob, Store}
use mesty_api.Messages.Queries.{get_chat_participants}
use mesty_api.Messages.Handlers.{
  is_muted_at, settings_of, publish, notify, notify_all, publish_message_event,
}

-- the jobs for a user
abbrev pub is_for : ℕ → PushJob → Bool
is_for v j = j.user_id == v

module _ (is_online : ℕ → Bool) (now : ℕ) (m : Message) (sender : ℕ) where
  -- a participant who is sent a push notification
  abbrev pub is_pushed : Store → ℕ → Bool
  is_pushed s u =
      not (u == sender) && not (is_online u) && not (is_muted_at now (settings_of u m.chat_id s))

  is_pushed-notify :
      (u v : ℕ) (s : Store) → is_pushed (notify is_online now m sender u s) v ≡ is_pushed s v
  is_pushed-notify u v s = ground arith

  pushed-notify :
      (u v : ℕ) (s : Store)
      → count (is_for v) (notify is_online now m sender u s).pushed
        ≡ (if is_pushed s v && u == v then 1 else 0) + count (is_for v) s.pushed
  pushed-notify u v s = elim (Bool-cases (u == v)) [
    | inl e ↦ let same : u ≡ v = (==_iff u v).0 e in rw same (ground arith)
    | inr e ↦ ground arith
  ]

  pushed-notify_all :
      (us : List ℕ) (v : ℕ) (s : Store)
      → count (is_for v) (notify_all is_online now m sender us s).pushed
        ≡ (if is_pushed s v then count (λ u. u == v) us else 0) + count (is_for v) s.pushed
  unfolding notify_all
  pushed-notify_all [] v s = ground arith
  pushed-notify_all (u ∷ us) v s =
      let t = notify is_online now m sender u s in
      ground (arith, pushed-notify_all us v t, is_pushed-notify u v s, pushed-notify u v s)

  count-participants :
      (v : ℕ) (ps : List Participant)
      → count
          (λ u. u == v)
          (map
            (λ p. p.user_id)
            (select_where (λ p. p.chat_id == m.chat_id && is_none p.left_at) ps))
        ≡ count (is_active m.chat_id v) ps
  count-participants v [] = refl
  count-participants v (p ∷ ps) = ground (arith, count-participants v ps)

  -- A new message puts one push job into the queue for each row of an active participant who is not the
  -- sender, is not online and has not muted the chat, and none for anybody else.
  pub pushed-publish_message_event :
      (v : ℕ) (s : Store)
      → count (is_for v) (publish_message_event is_online now m sender s).pushed
        ≡ (if is_pushed s v then count (is_active m.chat_id v) s.chat.participants else 0)
          + count (is_for v) s.pushed
  unfolding publish_message_event get_chat_participants
  pushed-publish_message_event v s = ground (
    arith,
    pushed-notify_all (get_chat_participants m.chat_id s) v
        (publish (chat_event m.chat_id "new_message" (m.id ∷ sender ∷ [])) s),
    count-participants v s.chat.participants,
  )
