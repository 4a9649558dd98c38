-- ===== src/Contacts/Queries.antt =====
-- `PostgresContactRepository` (crates/infrastructure/src/repositories/contact.rs), and find_id_by_phone of
-- crates/infrastructure/src/repositories/user.rs. `id` is the new id, and `now` the time.
use mesty_api.Common.{
  ℕ, Bool, true, false, String, Option, none, some, List, [], ◌∷◌, ◌&&◌, ◌||◌, ◌==◌, not, any,
  find?, if◌then◌else◌, str_eq, is_none, select_where, update_where, delete_where, order_with, map,
}
use mathlib.Core.Option
use Prim.Native.String.{compare}
use text.Mathlib.Text.{is_lt}
use mesty_api.DomainError.{
  validation, already_exists, internal, Result, ok, err, pure, gets, modify, ◌>>=◌,
}
use mesty_api.Auth.Phone.{new_phone}
use mesty_api.Contacts.Store.{ContactRow, UserRow, Store, normalize_e164}

-- `Contact`, whose phone has passed `PhoneNumber::new`
pub record Contact : Type 0 where
  pub id : ℕ
  pub owner_id : ℕ
  pub contact_id : Option ℕ
  pub phone : String
  pub nickname : Option String
  pub is_favorite : Bool
  pub created_at : ℕ

abbrev pub to_contact : ContactRow → String → Contact
to_contact r phone = record {
  id = r.id;
  owner_id = r.owner_id;
  contact_id = r.contact_id;
  phone = phone;
  nickname = r.nickname;
  is_favorite = r.is_favorite;
  created_at = r.created_at;
}

-- `map_record_to_contact`
unfoldable pub map_record_to_contact : ContactRow → Store → Result Contact × Store
map_record_to_contact r s = elim (new_phone r.phone) [
  | ok phone ↦ (ok (to_contact r phone), s)
  | err e ↦ (err e, s)
]

-- `.map(map_record_to_contact).transpose()`
unfoldable pub map_optional : Option ContactRow → Store → Result (Option Contact) × Store
map_optional none = pure none
map_optional (some r) = do c ← map_record_to_contact r; pure (some c)

unfoldable pub map_all : List ContactRow → Store → Result (List Contact) × Store
map_all [] = pure []
map_all (r ∷ rs) = do c ← map_record_to_contact r; cs ← map_all rs; pure (c ∷ cs)

-- `owner_id = o AND phone = p`
abbrev pub is_entry : ℕ → String → ContactRow → Bool
is_entry o p r = r.owner_id == o && str_eq r.phone p

unfoldable pub find_by_id_owned : ℕ → Store → Result (Option Contact) × Store
find_by_id_owned i = do row ← gets (λ s. find? (λ r. r.id == i) s.contacts); map_optional row

unfoldable pub find_by_owner_and_phone_owned : ℕ → String → Store → Result (Option Contact) × Store
find_by_owner_and_phone_owned o phone = do
  row ← gets (λ s. find? (is_entry o phone) s.contacts)
  map_optional row

-- `ORDER BY nickname ASC, phone ASC`, where NULL comes last
abbrev pub goes_first : ContactRow → ContactRow → Bool
goes_first a b = elim a.nickname [
  | none ↦ is_none b.nickname && is_lt (compare a.phone b.phone)
  | some n ↦ elim b.nickname [
    | none ↦ true
    | some m ↦ is_lt (compare n m) || str_eq n m && is_lt (compare a.phone b.phone)
  ]
]

unfoldable pub find_all_by_owner_owned : ℕ → Store → Result (List Contact) × Store
find_all_by_owner_owned o = do
  rows ← gets (λ s. order_with goes_first (select_where (λ r. r.owner_id == o) s.contacts))
  map_all rows

unfoldable pub find_id_by_phone : String → Store → Result (Option ℕ) × Store
find_id_by_phone phone = gets (λ s.
    Option.map (λ (u : UserRow). u.id)
      (find? (λ u. str_eq u.phone phone && is_none u.deleted_at && u.is_active) s.users))

abbrev pub new_contact : ℕ → ℕ → ℕ → String → Option String → Option ℕ → ContactRow
new_contact id now o phone nickname contact_id = record {
  id = id;
  owner_id = o;
  contact_id = contact_id;
  phone = phone;
  nickname = nickname;
  is_favorite = false;
  created_at = now;
}

abbrev pub has_user : ℕ → Store → Bool
has_user u s = any (λ (r : UserRow). r.id == u) s.users

-- the foreign keys of a contact
abbrev pub refers : ContactRow → Store → Bool
refers r s = has_user r.owner_id s && elim r.contact_id [ none ↦ true | some u ↦ has_user u s ]

-- `INSERT INTO contacts`, after the trigger has put the phone in its normal form
unfoldable pub insert_contact : ContactRow → Store → Result (Unit {0}) × Store
insert_contact r s = elim (normalize_e164 r.phone) [
  | none ↦ (err (internal "Database operation failed"), s)
  | some p ↦
      if any (λ c. c.id == r.id || is_entry r.owner_id p c) s.contacts
      then (err (already_exists "Resource already exists"), s)
      else if not (refers r s)
      then (err (validation "Referenced resource not found"), s)
      else (ok tt, record s { contacts = record r { phone = p } ∷ s.contacts })
]

unfoldable pub create_contact_raw :
    ℕ → ℕ → ℕ → String → Option String → Option ℕ → Store → Result (Unit {0}) × Store
create_contact_raw id now o phone nickname contact_id =
    insert_contact (new_contact id now o phone nickname contact_id)

-- `UPDATE contacts SET … WHERE id = $1`. The phone is one that was read from the row: the trigger and the
-- keys leave it as it is.
unfoldable pub update_contact : Contact → Store → Result (Unit {0}) × Store
update_contact c = modify (λ s. record s {
  contacts =
      update_where (λ r. r.id == c.id)
        (λ r. record r {
          contact_id = c.contact_id;
          phone = c.phone;
          nickname = c.nickname;
          is_favorite = c.is_favorite;
        })
        s.contacts;
})

unfoldable pub delete_contact : ℕ → Store → Result (Unit {0}) × Store
delete_contact i = modify (λ s. record s { contacts = delete_where (λ r. r.id == i) s.contacts })

-- `create_contact`, and the two queries for an owner that no endpoint calls
unfoldable pub create_contact : Contact → Store → Result (Unit {0}) × Store
create_contact c = insert_contact (record {
  id = c.id;
  owner_id = c.owner_id;
  contact_id = c.contact_id;
  phone = c.phone;
  nickname = c.nickname;
  is_favorite = c.is_favorite;
  created_at = c.created_at;
})

unfoldable pub find_favorites : ℕ → Store → Result (List Contact) × Store
find_favorites o = do
  rows ←
      gets (λ s.
        order_with goes_first (select_where (λ r. r.owner_id == o && r.is_favorite) s.contacts))
  map_all rows

unfoldable pub delete_by_owner : ℕ → Store → Result (Unit {0}) × Store
delete_by_owner o =
    modify (λ s. record s { contacts = delete_where (λ r. r.owner_id == o) s.contacts })

-- what `sync_contacts` returns of a user: the hash, the id, the name and the display name
pub record SyncRow : Type 0 where
  pub phone_hash : String
  pub user_id : Option ℕ
  pub username : Option String
  pub display_name : Option String

abbrev pub to_sync_row : UserRow → SyncRow
to_sync_row u = record {
  phone_hash = u.phone_hash;
  user_id = some u.id;
  username = u.username;
  display_name = u.display_name;
}

-- a member of a list of texts: `SMISMEMBER`, and `= ANY`
abbrev pub is_among : List String → String → Bool
is_among hs h = any (λ g. str_eq g h) hs

unfoldable pub sync_contacts : List String → Store → Result (List SyncRow) × Store
sync_contacts hashes = gets (λ s.
    let existing_hashes = select_where (is_among s.phone_hashes) hashes in
    map to_sync_row (
      select_where
        (λ u. is_among existing_hashes u.phone_hash && is_none u.deleted_at && u.is_active)
        s.users))
