-- ===== src/Contacts/Phones/Changes.antt =====
-- The phones that update_contact and delete_contact of crates/api/src/handlers/contacts/handlers.rs leave
-- in the table.
use mesty_api.Common.{
  ℕ, ◌≡◌, ◌⊎◌, refl, inl, inr, Bool, true, String, Option, none, some, ◌==◌, not, find?,
  if◌then◌else◌, arith, Bool-cases, Option-cases, All-delete_where, All-update_where, delete_where,
}
use mesty_api.DomainError.{Result, ok, err, DomainError, not_found, unauthorized}
use mesty_api.Auth.Phone.{new_phone}
use mesty_api.Contacts.Phones.{IsReadable, AllReadable, new_phone_ok}
use mesty_api.Contacts.Store.{ContactRow, Store, is_e164}
use mesty_api.Contacts.Queries as Queries
use mesty_api.Contacts.Queries.{
  Contact, to_contact, map_record_to_contact, map_optional, map_all, is_entry, find_by_id_owned,
  find_by_owner_and_phone_owned, find_all_by_owner_owned, goes_first, find_id_by_phone, new_contact,
  refers, insert_contact, create_contact_raw,
}
use mesty_api.Contacts.Handlers.{own_contact, changed, update_contact, delete_contact}

pub own_contact_lem :
    (u i : ℕ) (s : Store)
    → own_contact u i s ≡ (elim (find? (λ r. r.id == i) s.contacts) [
      | none ↦ (err (not_found "Contact not found"), s)
      | some r ↦ elim (new_phone r.phone) [
        | err e ↦ (err e, s)
        | ok p ↦
            if not (r.owner_id == u)
            then (err (unauthorized "Not authorized"), s)
            else (ok (to_contact r p), s)
      ]
    ])
unfolding own_contact find_by_id_owned map_optional map_record_to_contact
own_contact_lem u i s = ground arith

-- the contact that a user changes was read from the table
abbrev Reads : ℕ → ℕ → Store → Type 0
Reads u i s =
    ((e : DomainError) × (own_contact u i s ≡ (err e, s)))
    ⊎ ((c : Contact) × (own_contact u i s ≡ (ok c, s)) × (is_e164 c.phone ≡ true))

own_contact_row :
    (u i : ℕ) (s : Store) (r : ContactRow) (x : Result String)
    → find? (λ r. r.id == i) s.contacts ≡ some r
    → new_phone r.phone ≡ x
    → Reads u i s
own_contact_row u i s r (err y) f g = inl (y, ground (arith, own_contact_lem u i s))
own_contact_row u i s r (ok p) f g = elim (Bool-cases (r.owner_id == u)) [
  | inl e ↦ inr (to_contact r p, ground (arith, own_contact_lem u i s), new_phone_ok r.phone p g)
  | inr e ↦ inl (unauthorized "Not authorized", ground (arith, own_contact_lem u i s))
]

own_contact-Reads : (u i : ℕ) (s : Store) → Reads u i s
own_contact-Reads u i s = elim (Option-cases (find? (λ r. r.id == i) s.contacts)) [
  | inl f ↦ inl (not_found "Contact not found", ground (arith, own_contact_lem u i s))
  | inr (r, f) ↦ own_contact_row u i s r _ f refl
]

rewritten :
    (c : Contact) (s : Store)
    → is_e164 c.phone ≡ true
    → AllReadable s
    → AllReadable (Queries.update_contact c s).1
unfolding Queries.update_contact
rewritten c s p h =
    All-update_where IsReadable (λ r. r.id == c.id)
      (λ r. record r {
        contact_id = c.contact_id;
        phone = c.phone;
        nickname = c.nickname;
        is_favorite = c.is_favorite;
      })
      s.contacts (λ r e g. p) h

update_contact_state :
    (u i : ℕ) (nickname : Option String) (favorite : Option Bool) (s : Store) (r : Result Contact)
    → own_contact u i s ≡ (r, s)
    → (update_contact u i nickname favorite s).1
      ≡ (elim r [ err e ↦ s | ok c ↦ (Queries.update_contact (changed nickname favorite c) s).1 ])
unfolding update_contact Queries.update_contact
update_contact_state u i nickname favorite s (err e) f = ground (arith, f)
update_contact_state u i nickname favorite s (ok c) f = ground (arith, f)

pub update_contact-AllReadable :
    (u i : ℕ) (nickname : Option String) (favorite : Option Bool) (s : Store)
    → AllReadable s
    → AllReadable (update_contact u i nickname favorite s).1
update_contact-AllReadable u i nickname favorite s h = elim (own_contact-Reads u i s) [
  | inl (e, f) ↦ rw (update_contact_state u i nickname favorite s (err e) f) h
  | inr (c, f, p) ↦
      rw (update_contact_state u i nickname favorite s (ok c) f)
        (rewritten (changed nickname favorite c) s p h)
]

delete_contact_state :
    (u i : ℕ) (s : Store) (r : Result Contact)
    → own_contact u i s ≡ (r, s)
    → (delete_contact u i s).1 ≡ (elim r [
      | err e ↦ s
      | ok c ↦ record s { contacts = delete_where (λ r. r.id == i) s.contacts }
    ])
unfolding delete_contact Queries.delete_contact
delete_contact_state u i s (err e) f = ground (arith, f)
delete_contact_state u i s (ok c) f = ground (arith, f)

pub delete_contact-AllReadable :
    (u i : ℕ) (s : Store) → AllReadable s → AllReadable (delete_contact u i s).1
delete_contact-AllReadable u i s h = elim (own_contact-Reads u i s) [
  | inl (e, f) ↦ rw (delete_contact_state u i s (err e) f) h
  | inr (c, f, p) ↦
      rw (delete_contact_state u i s (ok c) f)
        (All-delete_where IsReadable (λ r. r.id == i) s.contacts h)
]
