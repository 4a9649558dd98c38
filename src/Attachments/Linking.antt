-- ===== src/Attachments/Linking.antt =====
-- Which message an attachment is linked to, before and after a request to the endpoints of
-- crates/api/src/handlers/attachments/handlers.rs.
use mesty_api.Common.{
  ℕ, ◌≡◌, sym, subst, inl, inr, Bool, true, false, String, Option, none, some, List, [], ◌∷◌, ◌&&◌,
  ◌==◌, ==_iff, ==_refl, not, any, find?, find?-holds, arith, Bool-cases, Option-cases, All,
  All-update_where, update_where,
}
use mesty_api.DomainError.{Result, ok, err}
use mesty_api.Messages.Store.{Message}
use mesty_api.Messages.Queries.{ensure_active_membership}
use mesty_api.Attachments.Uploads.{is_sized, Inserted, ensure_active_membership-same}
use mesty_api.Attachments.Store.{AttachmentRow, Store}
use mesty_api.Attachments.Queries as Queries
use mesty_api.Attachments.Queries.{
  NewPendingAttachment, ConfirmAttachmentInput, new_row, refers, insert_attachment, confirmed,
  is_live_message, is_pending, is_pending_in, create_pending_attachment,
  get_pending_attachment_for_user, ensure_member_of,
}
use mesty_api.Attachments.Handlers.{Storage, confirm_attachment}

-- a message of a chat, live or deleted
abbrev is_message_of : ℕ → ℕ → Message → Bool
is_message_of i c m = m.id == i && m.chat_id == c

-- an attachment that is not confirmed has no message; the message of the others is one of its chat
unfoldable pub is_linked : List Message → AttachmentRow → Bool
is_linked ms r = elim r.message_id [
  | none ↦ not r.confirmed
  | some i ↦ r.confirmed && elim r.chat_id [ none ↦ false | some c ↦ any (is_message_of i c) ms ]
]

abbrev pub IsAttached : List Message → AttachmentRow → Type 0
IsAttached ms r = (is_linked ms r ≡ true) × (is_sized r ≡ true)

abbrev pub AllAttached : Store → Type 0
AllAttached s = All (IsAttached s.inbox.messages) s.attachments

module _ (ms : List Message) where
  linked_new :
      (r : AttachmentRow) → r.confirmed ≡ false → r.message_id ≡ none → is_linked ms r ≡ true
  unfolding is_linked
  linked_new r e f = ground arith

pub Inserted-AllAttached : (s t : Store) → Inserted s t → AllAttached s → AllAttached t
Inserted-AllAttached s t (inl e) h = rw e h
Inserted-AllAttached s t (inr (r, e, size, c, m)) h =
    rw e ((linked_new s.inbox.messages r c m, size), h)

any-find? :
    (p q : Message → Bool) (ms : List Message) (m : Message)
    → find? p ms ≡ some m
    → q m ≡ true
    → any q ms ≡ true
any-find? p q [] m e h = absurd (ground arith)
any-find? p q (x ∷ ms) m e h = elim (Bool-cases (p x)) [
  | inl here ↦
      let same : x ≡ m = ground arith in
      let there : q x ≡ true = subst (λ y. q y ≡ true) (sym same) h in ground arith
  | inr other ↦ ground (arith, any-find? p q ms m (ground arith) h)
]

confirmed-IsAttached :
    (now : ℕ) (input : ConfirmAttachmentInput) (c : ℕ) (ms : List Message) (r : AttachmentRow)
    → any (is_message_of input.message_id c) ms ≡ true
    → is_pending_in input c r ≡ true
    → IsAttached ms r
    → IsAttached ms (confirmed now input r)
unfolding is_linked is_sized
confirmed-IsAttached now input c ms r there here (linked, size) =
    (in_chat r.chat_id (ground arith), size)
  where
    in_chat :
        (o : Option ℕ)
        → (elim o as (λ x. Bool) [ none ↦ false | some d ↦ d == c ]) ≡ true
        → (elim o as (λ x. Bool) [
          | none ↦ false
          | some d ↦ any (is_message_of input.message_id d) ms
        ])
          ≡ true
    in_chat none h = absurd (ground arith)
    in_chat (some d) h = let same : d ≡ c = (==_iff d c).0 h in rw same there

module _ (now : ℕ) (input : ConfirmAttachmentInput) (s : Store) where
  no_message :
      find? (is_live_message input.message_id) s.inbox.messages ≡ none
      → (Queries.confirm_attachment now input s).1 ≡ s
  unfolding Queries.confirm_attachment
  no_message e = ground (arith, e)

  with_message :
      (m : Message) (w : Result String)
      → find? (is_live_message input.message_id) s.inbox.messages ≡ some m
      → ensure_active_membership input.uploader_id m.chat_id s.inbox ≡ (w, s.inbox)
      → (Queries.confirm_attachment now input s).1 ≡ (elim w [
        | err y ↦ s
        | ok kind ↦ record s {
          attachments =
              update_where (is_pending_in input m.chat_id) (confirmed now input) s.attachments;
        }
      ])
  unfolding Queries.confirm_attachment
  with_message m (err y) e f = ground (arith, e, f)
  with_message m (ok kind) e f = ground (arith, e, f)

  marked :
      (m : Message) (w : Result String)
      → find? (is_live_message input.message_id) s.inbox.messages ≡ some m
      → AllAttached s
      → AllAttached (elim w [
        | err y ↦ s
        | ok kind ↦ record s {
          attachments =
              update_where (is_pending_in input m.chat_id) (confirmed now input) s.attachments;
        }
      ])
  marked m (err y) e h = h
  marked m (ok kind) e h =
      let found : is_live_message input.message_id m ≡ true =
        find?-holds (is_live_message input.message_id) s.inbox.messages m e in
      let there : any (is_message_of input.message_id m.chat_id) s.inbox.messages ≡ true =
        any-find? (is_live_message input.message_id) (is_message_of input.message_id m.chat_id)
          s.inbox.messages m e (ground (arith, found, ==_refl m.chat_id)) in
      All-update_where (IsAttached s.inbox.messages) (is_pending_in input m.chat_id)
        (confirmed now input) s.attachments
        (λ r. confirmed-IsAttached now input m.chat_id s.inbox.messages r there) h

  confirm-AllAttached : AllAttached s → AllAttached (Queries.confirm_attachment now input s).1
  confirm-AllAttached h =
      elim (Option-cases (find? (is_live_message input.message_id) s.inbox.messages)) [
        | inl e ↦ subst AllAttached (sym (no_message e)) h
        | inr (m, e) ↦
            let w = (ensure_active_membership input.uploader_id m.chat_id s.inbox).0 in
            let same = ensure_active_membership-same input.uploader_id m.chat_id s.inbox in
            subst AllAttached (sym (with_message m w e (ground (arith, same)))) (marked m w e h)
      ]

-- what confirm_attachment leaves, by the pending row and the answer of the object store
confirm_attachment_state :
    (store : Storage) (now u i m : ℕ) (key iv : Option String) (s : Store)
    → (confirm_attachment store now u i m key iv s).1
      ≡ (elim (find? (is_pending i u) s.attachments) [
        | none ↦ s
        | some a ↦ elim (store.head_object a.object_key) [
          | err e ↦ s
          | ok d ↦
              (Queries.confirm_attachment now
                (record {
                  attachment_id = i;
                  message_id = m;
                  uploader_id = u;
                  encryption_key_enc = key;
                  encryption_iv = iv;
                })
                s).1
        ]
      ])
unfolding confirm_attachment get_pending_attachment_for_user
confirm_attachment_state store now u i m key iv s = ground arith

chosen :
    (o : Option AttachmentRow) (head : AttachmentRow → Result (Unit {0})) (s t : Store)
    → AllAttached s
    → AllAttached t
    → AllAttached (elim o [ none ↦ s | some a ↦ elim (head a) [ err e ↦ s | ok d ↦ t ] ])
chosen none head s t h g = h
chosen (some a) head s t h g =
    elim (head a) as (λ r. AllAttached (elim r [ err e ↦ s | ok d ↦ t ])) [ err e ↦ h | ok d ↦ g ]

pub confirm_attachment-AllAttached :
    (store : Storage) (now u i m : ℕ) (key iv : Option String) (s : Store)
    → AllAttached s
    → AllAttached (confirm_attachment store now u i m key iv s).1
confirm_attachment-AllAttached store now u i m key iv s h =
    let input : ConfirmAttachmentInput = record {
      attachment_id = i;
      message_id = m;
      uploader_id = u;
      encryption_key_enc = key;
      encryption_iv = iv;
    } in
    subst AllAttached (sym (confirm_attachment_state store now u i m key iv s)) (
      chosen (find? (is_pending i u) s.attachments) (λ a. store.head_object a.object_key) s
        (Queries.confirm_attachment now input s).1 h (confirm-AllAttached now input s h))
