-- ===== src/Attachments/Uploads.antt =====
-- What an upload writes: create_upload_url of crates/api/src/handlers/attachments/handlers.rs down to the
-- row that create_pending_attachment inserts.
use mesty_api.Common.{
  ℕ, ◌*◌, ◌≤◌, ◌≡◌, ◌⊎◌, refl, sym, subst, inl, inr, Bool, true, false, String, Option, none, some,
  ◌∷◌, ◌&&◌, ◌||◌, ◌==◌, not, any, if◌then◌else◌, arith, Bool-cases,
}
use mesty_api.DomainError.{Result, ok, err, validation}
use mesty_api.Keys.Store.{ℤ, pos, negsuc}
use mesty_api.Chat.Store as Chats
use mesty_api.Chat.Chats.{get_chat_for_user, to_chat}
use mesty_api.Messages.Store as Inbox
use mesty_api.Messages.Store.{Message}
use mesty_api.Messages.Queries.{ensure_active_membership, ensure_active_membership_pool}
use mesty_api.Attachments.Store.{AttachmentRow, Store}
use mesty_api.Attachments.Queries.{
  NewPendingAttachment, new_row, refers, insert_attachment, create_pending_attachment,
  ensure_member_of,
}
use mesty_api.Attachments.Handlers.{
  Storage, max_size, is_positive, exceeds, validate_file_constraints, object_key_for,
  bucket_object_url, create_upload_url,
}

-- a size that some type allows
unfoldable pub is_sized : AttachmentRow → Bool
is_sized r = is_positive r.file_size && not (exceeds r.file_size (100 * 1024 * 1024))

largest :
    (a b c : Bool)
    → (if a then 26214400 else if b then 104857600 else if c then 26214400 else 104857600)
      ≤ 104857600
largest true b c = omega arith
largest false true c = omega arith
largest false false true = omega arith
largest false false false = omega arith

max_size_at_most : (t : String) → max_size t ≤ 104857600
unfolding max_size
max_size_at_most t = largest _ _ _

exceeds-max_size :
    (t : String) (z : ℤ) → exceeds z (max_size t) ≡ false → exceeds z (100 * 1024 * 1024) ≡ false
unfolding exceeds
exceeds-max_size t (pos n) h = ground (arith, max_size_at_most t)
exceeds-max_size t (negsuc n) h = refl

get_chat_for_user-same : (u c : ℕ) (s : Chats.Store) → (get_chat_for_user u c s).1 ≡ s
unfolding get_chat_for_user to_chat
get_chat_for_user-same u c s = ground arith

ensure_active_membership_pool-same :
    (u c : ℕ) (s : Inbox.Store) → (ensure_active_membership_pool u c s).1 ≡ s
unfolding ensure_active_membership_pool
ensure_active_membership_pool-same u c s = refl

pub ensure_active_membership-same :
    (u c : ℕ) (s : Inbox.Store) → (ensure_active_membership u c s).1 ≡ s
unfolding ensure_active_membership
ensure_active_membership-same u c s = ground arith

ensure_member_of-same : (u : ℕ) (c : Option ℕ) (s : Store) → (ensure_member_of u c s).1 ≡ s
unfolding ensure_member_of
ensure_member_of-same u none s = refl
ensure_member_of-same u (some c) s = rw (ensure_active_membership_pool-same u c s.inbox) refl

object_key_for-same :
    (store : Storage) (i u : ℕ) (c : Option ℕ) (f : Option String) (s : Store)
    → (object_key_for store i u c f s).1 ≡ s
unfolding object_key_for
object_key_for-same store i u none f s = refl
object_key_for-same store i u (some c) f s = ground (arith, get_chat_for_user-same u c s.inbox.chat)

validate_file_constraints_lem :
    (t : String) (z : ℤ) (s : Store)
    → validate_file_constraints t z s ≡ (
        if not (is_positive z)
        then (err (validation "file_size must be positive"), s)
        else if exceeds z (max_size t)
        then (err (validation "file_size exceeds maximum allowed for mime type: "), s)
        else (ok tt, s))
unfolding validate_file_constraints
validate_file_constraints_lem t z s = ground arith

-- what an upload leaves: nothing, or one row of an allowed size
abbrev pub Inserted : Store → Store → Type 0
Inserted s t =
    (t ≡ s)
    ⊎ ((r : AttachmentRow) × (t ≡ record s { attachments = r ∷ s.attachments })
        × (is_sized r ≡ true)
        × (r.confirmed ≡ false)
        × (r.message_id ≡ none))

insert_attachment_cases :
    (r : AttachmentRow) (s : Store)
    → is_sized r ≡ true
    → r.confirmed ≡ false
    → r.message_id ≡ none
    → Inserted s (insert_attachment r s).1
unfolding insert_attachment
insert_attachment_cases r s h c m =
    elim (Bool-cases
      (any (λ (a : AttachmentRow). a.id == r.id) s.attachments || not (refers r s))) [
        | inl e ↦ inl (ground arith)
        | inr e ↦ inr (r, ground arith, h, c, m)
      ]

created_from :
    (now : ℕ) (a : NewPendingAttachment) (s : Store)
    → is_sized (new_row now a) ≡ true
    → (r : Result (Unit {0})) → ensure_member_of a.uploader_id a.chat_id s ≡ (r, s)
    → Inserted s (create_pending_attachment now a s).1
unfolding create_pending_attachment
created_from now a s h (err e) f = inl (ground (arith, f))
created_from now a s h (ok d) f =
    let same : (create_pending_attachment now a s).1 ≡ (insert_attachment (new_row now a) s).1 =
      ground (arith, f) in
    subst (Inserted s) (sym same) (insert_attachment_cases (new_row now a) s h refl refl)

create_pending_attachment-Inserted :
    (now : ℕ) (a : NewPendingAttachment) (s : Store)
    → is_sized (new_row now a) ≡ true
    → Inserted s (create_pending_attachment now a s).1
create_pending_attachment-Inserted now a s h =
    created_from now a s h (ensure_member_of a.uploader_id a.chat_id s).0
      (ground (arith, ensure_member_of-same a.uploader_id a.chat_id s))

abbrev upload :
    Storage → ℕ → ℕ → String → ℤ → Option ℕ → Option String → String → NewPendingAttachment
upload store i u t z c f key = record {
  attachment_id = i;
  uploader_id = u;
  chat_id = c;
  object_key = key;
  file_url = bucket_object_url store key;
  file_type = t;
  file_size = z;
  file_name = f;
}

module _ (store : Storage) (i now u : ℕ) (t : String) (z : ℤ) (c : Option ℕ) (f : Option String)
    (s : Store) where
  refused :
      (is_positive z && not (exceeds z (max_size t))) ≡ false
      → (create_upload_url store i now u t z c f s).1 ≡ s
  unfolding create_upload_url
  refused e = ground (arith, e, validate_file_constraints_lem t z s)

  uploaded :
      (is_positive z && not (exceeds z (max_size t))) ≡ true
      → (k : Result String) → object_key_for store i u c f s ≡ (k, s)
      → (create_upload_url store i now u t z c f s).1 ≡ (elim k [
        | err y ↦ s
        | ok key ↦ elim (store.presign_put_url key t 300) [
          | err y ↦ s
          | ok url ↦ (create_pending_attachment now (upload store i u t z c f key) s).1
        ]
      ])
  unfolding create_upload_url
  uploaded e (err y) g = ground (arith, e, g, validate_file_constraints_lem t z s)
  uploaded e (ok key) g = ground (arith, e, g, validate_file_constraints_lem t z s)

  written_key :
      (is_positive z && not (exceeds z (max_size t))) ≡ true
      → (key : String) (r : Result String)
      → Inserted s (elim r [
        | err y ↦ s
        | ok url ↦ (create_pending_attachment now (upload store i u t z c f key) s).1
      ])
  unfolding is_sized
  written_key e key (err y) = inl refl
  written_key e key (ok url) =
      create_pending_attachment-Inserted now (upload store i u t z c f key) s
        (ground (arith, exceeds-max_size t z (ground arith)))

  written :
      (is_positive z && not (exceeds z (max_size t))) ≡ true
      → (k : Result String) (p : String → Result String)
      → Inserted s (elim k [
        | err y ↦ s
        | ok key ↦ elim (p key) [
          | err y ↦ s
          | ok url ↦ (create_pending_attachment now (upload store i u t z c f key) s).1
        ]
      ])
  written e (err y) p = inl refl
  written e (ok key) p = written_key e key (p key)

  pub create_upload_url-Inserted : Inserted s (create_upload_url store i now u t z c f s).1
  create_upload_url-Inserted = elim (Bool-cases (is_positive z && not (exceeds z (max_size t)))) [
    | inl e ↦
        let k = (object_key_for store i u c f s).0 in
        subst (Inserted s)
          (sym (uploaded e k (ground (arith, object_key_for-same store i u c f s))))
          (written e k (λ key. store.presign_put_url key t 300))
    | inr e ↦ inl (refused e)
  ]
