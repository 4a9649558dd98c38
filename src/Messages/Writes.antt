-- ===== src/Messages/Writes.antt =====
-- What a request to the message endpoints of crates/api/src/handlers/chats/handlers.rs writes into
-- `messages`.
use mesty_api.Common.{
  ℕ, ◌≡◌, refl, ap, ◌∙◌, inl, inr, Bool, true, false, String, Option, some, List, [], ◌∷◌, ◌&&◌,
  ◌==◌, not, any, if◌then◌else◌, arith, Bool-cases, update_where, find?-eq-any, concat,
}
use mesty_api.DomainError.{not_found, Result, ok, err, Guarded}
use mesty_api.Otp.{Redis, check_rate_limit}
use mesty_api.Chat.Store as Chats
use mesty_api.Chat.Participants.{verify_participant}
use mesty_api.Messages.Store.{Message, Store, is_own}
use mesty_api.Messages.Queries as Queries
use mesty_api.Messages.Queries.{
  NewMessage, new_message, edited, erased, verify_message_in_chat, get_chat_participants,
}
use mesty_api.Messages.Settings as Settings
use mesty_api.Messages.Sending.{MaySend, with_message, send_message-with_message}
use mesty_api.Messages.Editing.{
  MayEdit, row_of, is_member, with_edit, with_erased, edit_message-with_edit, delete_message_lem,
}
use mesty_api.Messages.Handlers.{
  message_deleted, notify, notify_all, publish_message_event, send_message, mark_messages_read,
  add_reaction, remove_reaction, edit_message, delete_message, update_chat_settings,
}
use mesty_api.Messages.Requests.{Request, send, mark_read, react, unreact, edit, delete, set, serve}

-- The step that a request of user u makes: nothing, a message with a new id, or a change of the rows of
-- an id that the user has sent under and not deleted.
pub data Writes (u : ℕ) (before after : List Message) : Type 0 where
  same_messages : after ≡ before → Writes u before after
  inserted_row :
      (n : Message)
      → any (λ (o : Message). o.id == n.id) before ≡ false
      → after ≡ n ∷ before
      → Writes u before after
  changed_rows :
      (i : ℕ) (p : Message → Bool) (f : Message → Message)
      → any (is_own i u) before ≡ true
      → ((x : Message) → p x ≡ true → (x.id == i) ≡ true)
      → ((x : Message) → (f x).id ≡ x.id)
      → after ≡ update_where p f before
      → Writes u before after

-- the participant check in front of a handler reads only
verify_participant_same : (u c : ℕ) (s : Chats.Store) → (verify_participant u c s).1 ≡ s
unfolding verify_participant
verify_participant_same u c s = ground arith

notify-messages :
    (is_online : ℕ → Bool) (now : ℕ) (m : Message) (u v : ℕ) (s : Store)
    → (notify is_online now m u v s).messages ≡ s.messages
notify-messages is_online now m u v s = ground arith

notify_all-messages :
    (is_online : ℕ → Bool) (now : ℕ) (m : Message) (u : ℕ) (us : List ℕ) (s : Store)
    → (notify_all is_online now m u us s).messages ≡ s.messages
unfolding notify_all
notify_all-messages is_online now m u [] s = refl
notify_all-messages is_online now m u (v ∷ vs) s =
    notify_all-messages is_online now m u vs (notify is_online now m u v s)
    ∙ notify-messages is_online now m u v s

mark_messages_read-messages :
    (now u c up_to : ℕ) (s : Store) → (mark_messages_read now u c up_to s).1.messages ≡ s.messages
unfolding mark_messages_read Queries.mark_messages_read
mark_messages_read-messages now u c up_to s = ground (arith, verify_participant_same u c s.chat)

add_reaction-messages :
    (id now u c i : ℕ) (r : String) (s : Store)
    → (add_reaction id now u c i r s).1.messages ≡ s.messages
unfolding add_reaction Queries.add_reaction verify_message_in_chat
add_reaction-messages id now u c i r s = ground (arith, verify_participant_same u c s.chat)

remove_reaction-messages :
    (decode : String → Option String) (u c i : ℕ) (r : String) (s : Store)
    → (remove_reaction decode u c i r s).1.messages ≡ s.messages
unfolding remove_reaction Queries.remove_reaction verify_message_in_chat
remove_reaction-messages decode u c i r s = ground (arith, verify_participant_same u c s.chat)

update_chat_settings-messages :
    (u c : ℕ) (r : Settings.UpdateChatSettings) (s : Store)
    → (update_chat_settings u c r s).1.messages ≡ s.messages
unfolding update_chat_settings Settings.update_chat_settings Settings.get_chat_settings
update_chat_settings-messages u c r s = ground (arith, verify_participant_same u c s.chat)

-- the rest of the handler `send_message` after the query
abbrev finish_send : (ℕ → Bool) → ℕ → ℕ → Result Message × Store → Store
finish_send is_online now u (ok m, t) = publish_message_event is_online now m u t
finish_send is_online now u (err e, t) = t

module _ (text : ℕ → String) (is_online : ℕ → Bool) (id now u c : ℕ) (req : NewMessage)
    (s : Store) where
  abbrev counted : Bool × Redis
  counted = check_rate_limit now (concat "msg:" (text u)) 15 10 s.redis

  send_message_lem : (send_message text is_online id now u c req s).1 ≡ (
      if counted.0
      then finish_send is_online now u
          (Queries.send_message id now u c req (record s { redis = counted.1 }))
      else record s { redis = counted.1 })
  unfolding send_message
  send_message_lem = ground arith

  finish_send-Writes :
      (r : Result Message × Store)
      → Guarded s
          (MaySend id now u c req s)
          (λ x t. (x ≡ new_message id now u c req) × (t ≡ with_message id now u c req s))
          r
      → Writes u s.messages (finish_send is_online now u r).messages
  unfolding publish_message_event
  finish_send-Writes (ok m, t) ((r, here, apart, content, fit), (e, e')) =
      inserted_row (new_message id now u c req) (ground arith)
        (notify_all-messages is_online now m u _ _ ∙ ap (λ (z : Store). z.messages) e')
  finish_send-Writes (err x, t) (refused, e) = same_messages (ap (λ (z : Store). z.messages) e)

send_message-Writes :
    (text : ℕ → String) (is_online : ℕ → Bool) (id now u c : ℕ) (req : NewMessage) (s : Store)
    → Writes u s.messages (send_message text is_online id now u c req s).1.messages
send_message-Writes text is_online id now u c req s =
    let s' : Store = record s { redis = (counted text is_online id now u c req s).1 } in
    rw (send_message_lem text is_online id now u c req s)
      (elim (Bool-cases (counted text is_online id now u c req s).0) [
        | inl e ↦ rw e (
            finish_send-Writes text is_online id now u c req s'
              (Queries.send_message id now u c req s')
              (send_message-with_message id now u c req s'))
        | inr e ↦ rw e (same_messages refl)
      ])

module _ (now u c i : ℕ) (s : Store) where
  edit_message_lem :
      (content iv : Option String)
      → (edit_message now u c i content iv s).1
        ≡ (if is_member u c s then (Queries.edit_message now u i content iv s).1 else s)
  unfolding edit_message verify_participant
  edit_message_lem content iv = ground arith

  edit-Writes :
      (content iv : Option String) (r : Result Message × Store)
      → Guarded s
          (MayEdit now u i content iv s)
          (λ x t.
            (old : Message) × (row_of i s ≡ some old)
            × (x ≡ edited now content iv old)
            × (t ≡ with_edit now i content iv s))
          r
      → Writes u s.messages r.1.messages
  edit-Writes content iv (ok x, t)
        ((own, old, found, takes, given, row, kept), (old', here, e, e')) =
      changed_rows i (λ m. m.id == i) (edited now content iv)
        (ground (arith, found, find?-eq-any (is_own i u) s.messages)) (λ x h. h) (λ x. refl)
        (ap (λ (z : Store). z.messages) e')
  edit-Writes content iv (err x, t) (refused, e) = same_messages (ap (λ (z : Store). z.messages) e)

  edit_message-Writes :
      (content iv : Option String)
      → Writes u s.messages (edit_message now u c i content iv s).1.messages
  edit_message-Writes content iv =
      rw (edit_message_lem content iv) (elim (Bool-cases (is_member u c s)) [
        | inl e ↦ rw e (edit-Writes content iv _ (edit_message-with_edit now u i content iv s))
        | inr e ↦ rw e (same_messages refl)
      ])

  pub delete_handler_lem : delete_message now u c i s ≡ (
      if not (is_member u c s)
      then (err (not_found "chat not found or not a participant"), s)
      else if any (is_own i u) s.messages
      then (ok (record { code = 200; body = message_deleted true }), with_erased now u i s)
      else (err (not_found "message not found or not authorized"), with_erased now u i s))
  unfolding delete_message verify_participant
  delete_handler_lem = ground (arith, delete_message_lem now u i s)

  delete_message-Writes : Writes u s.messages (delete_message now u c i s).1.messages
  delete_message-Writes = elim (Bool-cases (is_member u c s && any (is_own i u) s.messages)) [
    | inl e ↦
        changed_rows i (is_own i u) (erased now) (ground arith) (λ x h. ground arith) (λ x. refl)
          (ground (arith, delete_handler_lem))
    | inr e ↦ same_messages (ground (arith, delete_handler_lem, none_own s.messages))
  ]
    where
      none_own :
          (ms : List Message)
          → any (is_own i u) ms ≡ false
          → update_where (is_own i u) (erased now) ms ≡ ms
      none_own [] h = refl
      none_own (m ∷ ms) h = ground (arith, none_own ms)

-- Every request makes a step of `Writes`.
pub serve-Writes :
    (text : ℕ → String) (is_online : ℕ → Bool) (decode : String → Option String) (now u : ℕ)
    (r : Request) (s : Store)
    → Writes u s.messages (serve text is_online decode now u r s).messages
unfolding serve
serve-Writes text is_online decode now u (send id c req) s =
    send_message-Writes text is_online id now u c req s
serve-Writes text is_online decode now u (mark_read c up_to) s =
    same_messages (mark_messages_read-messages now u c up_to s)
serve-Writes text is_online decode now u (react id c i reaction) s =
    same_messages (add_reaction-messages id now u c i reaction s)
serve-Writes text is_online decode now u (unreact c i emoji) s =
    same_messages (remove_reaction-messages decode u c i emoji s)
serve-Writes text is_online decode now u (edit c i content iv) s =
    edit_message-Writes now u c i s content iv
serve-Writes text is_online decode now u (delete c i) s = delete_message-Writes now u c i s
serve-Writes text is_online decode now u (set c req) s =
    same_messages (update_chat_settings-messages u c req s)
