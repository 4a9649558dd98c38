-- ===== src/Contacts/Phones.antt =====
-- Every stored phone can be read: the trigger of migrations/007_contacts.sql against `PhoneNumber::new`
-- (crates/domain/src/user/value_objects.rs), for the endpoints of
-- crates/api/src/handlers/contacts/handlers.rs.
pub mod Changes
pub mod Requests
use mesty_api.Common.{
  ℕ, ◌≡◌, ◌≢◌, ◌⊎◌, refl, sym, subst, ap, ◌∙◌, inl, inr, Bool, true, false, String, Option, none,
  some, List, [], ◌∷◌, ◌&&◌, ◌||◌, ◌==◌, not, any, find?, if◌then◌else◌, arith, Bool-cases,
  Option-cases, is_empty, starts_with_plus, str_eq, is_none, All-delete_where, All,
  All-update_where, All-find?, All-select_where, select_where, delete_where, update_where,
  order_with, insert_with, is_some, trim,
}
use mathlib.Core.Option
use mesty_api.DomainError.{
  Result, ok, err, DomainError, validation, not_found, unauthorized, already_exists, internal,
}
use mesty_api.Auth.Phone.{new_phone}
use mesty_api.Contacts.Store.{ContactRow, UserRow, Store, cleaned, is_e164, normalize_e164}
use mesty_api.Contacts.Queries as Queries
use mesty_api.Contacts.Queries.{
  Contact, to_contact, map_record_to_contact, map_optional, map_all, is_entry, find_by_id_owned,
  find_by_owner_and_phone_owned, find_all_by_owner_owned, goes_first, find_id_by_phone, new_contact,
  refers, insert_contact, create_contact_raw,
}
use mesty_api.Contacts.Handlers.{
  Answer, listed, list_contacts, create_contact, own_contact, changed, update_contact,
  delete_contact,
}

-- a row that `map_record_to_contact` reads
abbrev pub IsReadable : ContactRow → Type 0
IsReadable r = is_e164 r.phone ≡ true

abbrev pub AllReadable : Store → Type 0
AllReadable s = All IsReadable s.contacts

pub new_phone-is_e164 : (p : String) → is_e164 p ≡ true → new_phone p ≡ ok p
unfolding new_phone is_e164
new_phone-is_e164 p e = ground (arith, e)

new_phone_refused : (p q : String) → is_e164 p ≡ false → new_phone p ≢ ok q
unfolding new_phone is_e164
new_phone_refused p q e f = ground arith

pub new_phone_ok : (p q : String) → new_phone p ≡ ok q → is_e164 q ≡ true
new_phone_ok p q f = elim (Bool-cases (is_e164 p)) [
  | inl e ↦
      let same : p ≡ q = ground (arith, new_phone-is_e164 p e) in
      subst (λ x. is_e164 x ≡ true) same e
  | inr e ↦ absurd (new_phone_refused p q e f)
]

normalize_ok : (x p : String) → normalize_e164 x ≡ some p → is_e164 p ≡ true
unfolding normalize_e164
normalize_ok x p f = elim (Bool-cases (is_e164 (cleaned x))) [
  | inl e ↦ let same : cleaned x ≡ p = ground arith in subst (λ y. is_e164 y ≡ true) same e
  | inr e ↦ absurd (ground arith)
]

pub insert_contact_refused :
    (r : ContactRow) (s : Store) → normalize_e164 r.phone ≡ none → (insert_contact r s).1 ≡ s
unfolding insert_contact
insert_contact_refused r s e = ground (arith, e)

pub insert_contact_stored :
    (r : ContactRow) (s : Store) (p : String)
    → normalize_e164 r.phone ≡ some p
    → (insert_contact r s).1 ≡ (
        if any (λ c. c.id == r.id || is_entry r.owner_id p c) s.contacts || not (refers r s)
        then s
        else record s { contacts = record r { phone = p } ∷ s.contacts })
unfolding insert_contact
insert_contact_stored r s p e = ground (arith, e)

insert_contact-AllReadable :
    (r : ContactRow) (s : Store) → AllReadable s → AllReadable (insert_contact r s).1
insert_contact-AllReadable r s h = elim (Option-cases (normalize_e164 r.phone)) [
  | inl e ↦ subst AllReadable (sym (insert_contact_refused r s e)) h
  | inr (p, e) ↦
      let q = any (λ c. c.id == r.id || is_entry r.owner_id p c) s.contacts || not (refers r s) in
      rw (insert_contact_stored r s p e)
        (elim (Bool-cases q) [ inl y ↦ rw y h | inr y ↦ rw y (normalize_ok r.phone p e, h) ])
]

map_optional-same : (o : Option ContactRow) (s : Store) → (map_optional o s).1 ≡ s
unfolding map_optional map_record_to_contact
map_optional-same none s = refl
map_optional-same (some r) s = ground arith

pub find_by_owner_and_phone_owned-same :
    (o : ℕ) (p : String) (s : Store) → (find_by_owner_and_phone_owned o p s).1 ≡ s
unfolding find_by_owner_and_phone_owned
find_by_owner_and_phone_owned-same o p s = map_optional-same (find? (is_entry o p) s.contacts) s

-- create_contact writes one row or nothing
abbrev Inserts : ℕ → ℕ → ℕ → String → Option String → Store → Store → Type 0
Inserts id now u phone nickname s t =
    (t ≡ s)
    ⊎ ((c : Option ℕ) × (t ≡ (insert_contact (new_contact id now u (trim phone) nickname c) s).1))

pub create_contact_refused :
    (id shown now u : ℕ) (phone : String) (nickname : Option String) (s : Store)
    → (is_empty (trim phone) || not (starts_with_plus (trim phone))) ≡ true
    → (create_contact id shown now u phone nickname s).1 ≡ s
unfolding create_contact
create_contact_refused id shown now u phone nickname s e = ground (arith, e)

create_contact_known :
    (id shown now u : ℕ) (phone : String) (nickname : Option String) (s : Store)
    → (is_empty (trim phone) || not (starts_with_plus (trim phone))) ≡ false
    → (r : Result (Option Contact)) → find_by_owner_and_phone_owned u (trim phone) s ≡ (r, s)
    → Inserts id now u phone nickname s (create_contact id shown now u phone nickname s).1
unfolding create_contact find_id_by_phone create_contact_raw
create_contact_known id shown now u phone nickname s e (err y) f = inl (ground (arith, e, f))
create_contact_known id shown now u phone nickname s e (ok (some c)) f = inl (ground (arith, e, f))
create_contact_known id shown now u phone nickname s e (ok none) f = inr (
  Option.map (λ (v : UserRow). v.id)
      (find? (λ v. str_eq v.phone (trim phone) && is_none v.deleted_at && v.is_active) s.users),
  ground (arith, e, f),
)

create_contact-Inserts :
    (id shown now u : ℕ) (phone : String) (nickname : Option String) (s : Store)
    → Inserts id now u phone nickname s (create_contact id shown now u phone nickname s).1
create_contact-Inserts id shown now u phone nickname s =
    let same = find_by_owner_and_phone_owned-same u (trim phone) s in
    elim (Bool-cases (is_empty (trim phone) || not (starts_with_plus (trim phone)))) [
      | inl e ↦ inl (create_contact_refused id shown now u phone nickname s e)
      | inr e ↦
          create_contact_known id shown now u phone nickname s e
            (find_by_owner_and_phone_owned u (trim phone) s).0 (ground (arith, same))
    ]

pub create_contact-AllReadable :
    (id shown now u : ℕ) (phone : String) (nickname : Option String) (s : Store)
    → AllReadable s
    → AllReadable (create_contact id shown now u phone nickname s).1
create_contact-AllReadable id shown now u phone nickname s h =
    elim (create_contact-Inserts id shown now u phone nickname s) [
      | inl e ↦ rw e h
      | inr (c, e) ↦
          rw e (insert_contact-AllReadable (new_contact id now u (trim phone) nickname c) s h)
    ]
