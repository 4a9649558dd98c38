-- ===== src/Contacts/Answers.antt =====
-- The id in the answer of create_contact (crates/api/src/handlers/contacts/handlers.rs), and what
-- update_contact and delete_contact make of it.
use mesty_api.Common.{
  ℕ, ◌≡◌, ap, ◌∙◌, inl, inr, Bool, false, String, Option, none, some, ◌&&◌, ◌||◌, ◌==◌, not, any,
  find?, arith, Bool-cases, Option-cases, trim, str_eq, is_none,
}
use mathlib.Core.Option
use mesty_api.DomainError.{Result, ok, err, not_found}
use mesty_api.Contacts.Store.{ContactRow, UserRow, Store, normalize_e164}
use mesty_api.Contacts.Queries.{
  Contact, is_entry, find_by_owner_and_phone_owned, new_contact, refers, insert_contact,
  create_contact_raw, find_id_by_phone,
}
use mesty_api.Contacts.Handlers.{
  ContactResponse, created, create_contact, own_contact, update_contact, delete_contact,
}
use mesty_api.Contacts.Phones.{
  insert_contact_refused, insert_contact_stored, find_by_owner_and_phone_owned-same,
}
use mesty_api.Contacts.Phones.Changes.{own_contact_lem}

find?-insert_contact :
    (i : ℕ) (r : ContactRow) (s : Store)
    → (r.id == i) ≡ false
    → find? (λ (c : ContactRow). c.id == i) (insert_contact r s).1.contacts
      ≡ find? (λ (c : ContactRow). c.id == i) s.contacts
find?-insert_contact i r s n = elim (Option-cases (normalize_e164 r.phone)) [
  | inl e ↦
      ap (λ t. find? (λ (c : ContactRow). c.id == i) (Store.contacts t))
        (insert_contact_refused r s e)
  | inr (p, e) ↦
      let q = any (λ c. c.id == r.id || is_entry r.owner_id p c) s.contacts || not (refers r s) in
      elim (Bool-cases q) [
        | inl y ↦ ground (arith, insert_contact_stored r s p e, y)
        | inr y ↦ ground (arith, insert_contact_stored r s p e, y)
      ]
]

-- what a created contact says of its row
abbrev Shown : ℕ → ℕ → ℕ → ℕ → String → Option String → Store → ContactResponse → Store → Type 0
Shown id shown now u phone nickname s a t =
    (a.id ≡ shown)
    × ((c : Option ℕ) × (t ≡ (insert_contact (new_contact id now u (trim phone) nickname c) s).1))

create_contact_known :
    (id shown now u : ℕ) (phone : String) (nickname : Option String) (s t : Store)
    → (a : ContactResponse) → create_contact id shown now u phone nickname s ≡ (ok (created a), t)
    → (r : Result (Option Contact)) → find_by_owner_and_phone_owned u (trim phone) s ≡ (r, s)
    → Shown id shown now u phone nickname s a t
unfolding create_contact find_id_by_phone create_contact_raw
create_contact_known id shown now u phone nickname s t a e (err y) f = absurd (ground (arith, e, f))
create_contact_known id shown now u phone nickname s t a e (ok (some c)) f =
    absurd (ground (arith, e, f))
create_contact_known id shown now u phone nickname s t a e (ok none) f =
    let c : Option ℕ =
      Option.map (λ (v : UserRow). v.id)
        (find? (λ v. str_eq v.phone (trim phone) && is_none v.deleted_at && v.is_active) s.users) in
    (ground (arith, e, f), (c, ground (arith, e, f)))

create_contact-Shown :
    (id shown now u : ℕ) (phone : String) (nickname : Option String) (s t : Store)
    → (a : ContactResponse) → create_contact id shown now u phone nickname s ≡ (ok (created a), t)
    → Shown id shown now u phone nickname s a t
create_contact-Shown id shown now u phone nickname s t a e =
    let same = find_by_owner_and_phone_owned-same u (trim phone) s in
    create_contact_known id shown now u phone nickname s t a e
      (find_by_owner_and_phone_owned u (trim phone) s).0 (ground (arith, same))

own_contact_missing :
    (u i : ℕ) (s : Store)
    → find? (λ (c : ContactRow). c.id == i) s.contacts ≡ none
    → own_contact u i s ≡ (err (not_found "Contact not found"), s)
own_contact_missing u i s e = ground (arith, own_contact_lem u i s)

changes_missing :
    (u i : ℕ) (nickname : Option String) (favorite : Option Bool) (s : Store)
    → own_contact u i s ≡ (err (not_found "Contact not found"), s)
    → (update_contact u i nickname favorite s ≡ (err (not_found "Contact not found"), s))
      × (delete_contact u i s ≡ (err (not_found "Contact not found"), s))
unfolding update_contact delete_contact
changes_missing u i nickname favorite s e = (ground (arith, e), ground (arith, e))

-- The id in the answer of create_contact is drawn for the answer alone: when it differs from that of
-- the new row and no row had it, update_contact and delete_contact with that id answer that there is no
-- such contact, and change nothing.
pub changes-create_contact :
    (id shown now u : ℕ) (phone : String) (nickname : Option String) (s t : Store)
    → (a : ContactResponse) (new_name : Option String) (favorite : Option Bool)
    → create_contact id shown now u phone nickname s ≡ (ok (created a), t)
    → (id == shown) ≡ false
    → find? (λ (c : ContactRow). c.id == shown) s.contacts ≡ none
    → (update_contact u a.id new_name favorite t ≡ (err (not_found "Contact not found"), t))
      × (delete_contact u a.id t ≡ (err (not_found "Contact not found"), t))
changes-create_contact id shown now u phone nickname s t a new_name favorite e d n =
    let (same, (c, done)) = create_contact-Shown id shown now u phone nickname s t a e in
    let row = new_contact id now u (trim phone) nickname c in
    let missing : find? (λ (c : ContactRow). c.id == shown) t.contacts ≡ none =
      rw done (find?-insert_contact shown row s d ∙ n) in
    rw same (changes_missing u shown new_name favorite t (own_contact_missing u shown t missing))
