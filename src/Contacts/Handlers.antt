-- ===== src/Contacts/Handlers.antt =====
-- The contact endpoints of crates/api/src/handlers/contacts/handlers.rs. `hash_phone` and
-- `hash_phone_sha256` (crates/shared/src/hash.rs) are parameters, and `shown` is the id that
-- create_contact draws for its response; `now` is the time of the request, in the row and in the response.
use mesty_api.Common.{
  ℕ, Bool, false, String, Option, none, some, List, ◌||◌, ◌==◌, not, find?, is_some, is_empty,
  starts_with_plus, trim, length, leb, ltb, map, if◌then◌else◌, str_eq, unwrap_or,
}
use mesty_api.DomainError.{
  validation, not_found, unauthorized, Result, pure, throw_if, ok_or, ◌>>=◌, ◌>>◌,
}
use mesty_api.Contacts.Store.{Store}
use mesty_api.Contacts.Queries as Queries
use mesty_api.Contacts.Queries.{
  Contact, SyncRow, find_by_id_owned, find_by_owner_and_phone_owned, find_all_by_owner_owned,
  find_id_by_phone, create_contact_raw,
}

pub record ContactResponse : Type 0 where
  pub id : ℕ
  pub contact_id : Option ℕ
  pub phone : String
  pub nickname : Option String
  pub is_favorite : Bool
  pub created_at : ℕ

-- an entry of the answer to sync_contacts
pub record SyncMatch : Type 0 where
  pub hash : String
  pub user_id : Option ℕ
  pub username : Option String
  pub display_name : Option String

-- the answers of the endpoints, by their status
pub data Answer : Type 0 where
  listed : List ContactResponse → Answer
  created : ContactResponse → Answer
  already_there : Answer
  updated : ContactResponse → Answer
  deleted : Answer
  wrong_size : Answer
  matches : List SyncMatch → Answer

abbrev pub to_response : Contact → ContactResponse
to_response c = record {
  id = c.id;
  contact_id = c.contact_id;
  phone = c.phone;
  nickname = c.nickname;
  is_favorite = c.is_favorite;
  created_at = c.created_at;
}

unfoldable pub list_contacts : ℕ → Store → Result Answer × Store
list_contacts auth = do cs ← find_all_by_owner_owned auth; pure (listed (map to_response cs))

unfoldable pub create_contact :
    ℕ → ℕ → ℕ → ℕ → String → Option String → Store → Result Answer × Store
create_contact id shown now auth phone nickname = do
  let phone_str : String = trim phone
  throw_if (is_empty phone_str || not (starts_with_plus phone_str))
      (validation "Invalid phone number format")
  existing ← find_by_owner_and_phone_owned auth phone_str
  if is_some existing then pure already_there else do
    contact_id ← find_id_by_phone phone_str
    create_contact_raw id now auth phone_str nickname contact_id
    pure (
        created (record {
          id = shown;
          contact_id = contact_id;
          phone = phone_str;
          nickname = nickname;
          is_favorite = false;
          created_at = now;
        }))

-- `find_by_id_owned(…)?.ok_or_else(…)` and the test of the owner
unfoldable pub own_contact : ℕ → ℕ → Store → Result Contact × Store
own_contact auth i = do
  found ← find_by_id_owned i
  contact ← ok_or found (not_found "Contact not found")
  throw_if (not (contact.owner_id == auth)) (unauthorized "Not authorized")
  pure contact

abbrev pub changed : Option String → Option Bool → Contact → Contact
changed nickname is_favorite c = record c {
  nickname = elim nickname [ none ↦ c.nickname | some n ↦ some n ];
  is_favorite = unwrap_or is_favorite c.is_favorite;
}

unfoldable pub update_contact : ℕ → ℕ → Option String → Option Bool → Store → Result Answer × Store
update_contact auth i nickname is_favorite = do
  contact ← own_contact auth i
  let new : Contact = changed nickname is_favorite contact
  Queries.update_contact new
  pure (updated (to_response new))

unfoldable pub delete_contact : ℕ → ℕ → Store → Result Answer × Store
delete_contact auth i = do own_contact auth i; Queries.delete_contact i; pure deleted

-- the first phone that has the hash
abbrev pub original_phone : (String → String) → List String → String → String
original_phone hash_phone phones h = unwrap_or (find? (λ p. str_eq (hash_phone p) h) phones) ""

unfoldable pub sync_contacts :
    (String → String) → (String → String) → List String → Store → Result Answer × Store
sync_contacts hash_phone hash_phone_sha256 phones =
    if leb (length phones) 0 || ltb 1000 (length phones) then pure wrong_size else do
      rows ← Queries.sync_contacts (map hash_phone phones)
      pure (
          matches (
            map
              (λ r. record {
                hash = hash_phone_sha256 (original_phone hash_phone phones r.phone_hash);
                user_id = r.user_id;
                username = r.username;
                display_name = r.display_name;
              })
              rows))
