-- ===== src/Contacts/Store.antt =====
-- The tables `contacts` and `users` as the address book reads them (migrations/007_contacts.sql), the
-- trigger on a contact's phone, and the set phone_hashes of Redis.
use Prim.Native.Char.{code}
use Prim.Native.String as Text
use Prim.Native.String.{String, len}
use mesty_api.Auth.Phone.{is_ascii_digit, is_international}
use mesty_api.Common.{
  ℕ, Bool, false, Option, none, some, ◌&&◌, ◌||◌, ◌==◌, List, leb, if◌then◌else◌,
}

pub record ContactRow : Type 0 where
  pub id : ℕ
  pub owner_id : ℕ
  pub contact_id : Option ℕ
  pub phone : String
  pub nickname : Option String
  pub is_favorite : Bool
  pub created_at : ℕ

-- `c.owner_id = o AND c.contact_id = u`, which is not true of NULL
abbrev pub is_contact : ℕ → ℕ → ContactRow → Bool
is_contact o u c = c.owner_id == o && elim c.contact_id [ none ↦ false | some v ↦ v == u ]

pub record UserRow : Type 0 where
  pub id : ℕ
  pub phone : String
  pub phone_hash : String
  pub username : Option String
  pub display_name : Option String
  pub is_active : Bool
  pub deleted_at : Option ℕ

pub record Store : Type 0 where
  pub users : List UserRow
  pub contacts : List ContactRow
  pub phone_hashes : List String

-- `regexp_replace(phone, '[^\d+]', '', 'g')`
unfoldable pub cleaned : String → String
cleaned Text.[] = Text.[]
cleaned (Text.◌∷◌ c s) =
    let rest = cleaned s in if is_ascii_digit c || code c == 43 then Text.◌∷◌ c rest else rest

-- `'^\+\d{7,15}$'`
unfoldable pub is_e164 : String → Bool
is_e164 phone = is_international phone && leb 8 (len phone) && leb (len phone) 16

-- `normalize_e164`, which raises an error on any other phone
unfoldable pub normalize_e164 : String → Option String
normalize_e164 phone = if is_e164 (cleaned phone) then some (cleaned phone) else none
