-- ===== src/Contacts/Tests.antt =====
-- An address book and a private chat, on which the theorems on the contacts
-- (crates/infrastructure/src/repositories/contact.rs, crates/api/src/handlers/contacts/handlers.rs) and on
-- the blocks (crates/api/src/handlers/blocks/handlers.rs) are applied.
use mesty_api.Common.{
  ℕ, ◌≡◌, refl, true, false, String, none, some, List, [], ◌∷◌, map, select_where, ◌==◌, order_with,
  is_empty, trim_start, trim_end, starts_with_plus,
}
use mesty_api.DomainError.{Result, ok, err, unauthorized, not_found}
use mesty_api.Auth.Phone.{is_international, all_digits}
use mesty_api.Chat.ChatType
use mesty_api.Chat.ChatType.{private_chat}
use mesty_api.Chat.Store.{is_private}
use mesty_api.Chat.Chats.{new_chat}
use mesty_api.Messages.Store as Inbox
use mesty_api.Messages.Store.{Message}
use mesty_api.Messages.Queries.{NewMessage, send_message}
use mesty_api.Chat.Participants.{joined}
use mesty_api.Contacts.Store.{ContactRow, UserRow, Store, cleaned, is_e164, normalize_e164}
use mesty_api.Contacts.Queries.{
  to_contact, goes_first, map_optional, find_by_owner_and_phone_owned, find_id_by_phone,
  insert_contact, create_contact_raw,
}
use mesty_api.Contacts.Handlers.{
  ContactResponse, listed, created, to_response, list_contacts, create_contact, update_contact,
  delete_contact,
}
use mesty_api.Contacts.Blocks.{
  blocked_created, is_user_blocked, new_block, insert_block, add_block, block_user,
}
use mesty_api.Contacts.Blocks.Refusals.{send_message-block_user}
use mesty_api.Contacts.Phones.Requests.{
  Request, create, update, delete, serve_all, list_contacts-serve_all,
}
use mesty_api.Contacts.Answers.{changes-create_contact}

abbrev account : ℕ → String → UserRow
account u phone = record {
  id = u;
  phone = phone;
  phone_hash = phone;
  username = none;
  display_name = none;
  is_active = true;
  deleted_at = none;
}

abbrev entry : ContactRow
entry = record {
  id = 5;
  owner_id = 1;
  contact_id = some 2;
  phone = "+57300123";
  nickname = some "Ana";
  is_favorite = false;
  created_at = 3;
}

-- users 1 and 2, of whom the first knows the second
abbrev book : Store
book = record {
  users = account 1 "+5730099" ∷ account 2 "+57300123" ∷ [];
  contacts = entry ∷ [];
  phone_hashes = [];
}

abbrev requests : List Request
requests =
    create 6 60 40 1 " +57 300 456" none
    ∷ update 1 5 none (some true)
    ∷ delete 2 5
    ∷ create 7 70 50 1 "+1" none
    ∷ []

list_contacts-serve_all_example :
    let t = serve_all requests book in
    list_contacts 1 t ≡ (
      ok (
          listed (
            map to_response (
              map
                (λ r. to_contact r r.phone)
                (order_with goes_first
                  (select_where (λ (r : ContactRow). r.owner_id == 1) t.contacts))))),
      t,
    )
unfolding is_e164 is_international all_digits
list_contacts-serve_all_example = list_contacts-serve_all requests 1 book (refl, tt)

abbrev saved : ContactRow
saved = record {
  id = 6;
  owner_id = 1;
  contact_id = none;
  phone = "+57300456";
  nickname = none;
  is_favorite = false;
  created_at = 40;
}

abbrev answer : ContactResponse
answer = record {
  id = 60;
  contact_id = none;
  phone = "+57 300 456";
  nickname = none;
  is_favorite = false;
  created_at = 40;
}

abbrev with_saved : Store
with_saved = record book { contacts = saved ∷ entry ∷ [] }

creates : create_contact 6 60 40 1 " +57 300 456" none book ≡ (ok (created answer), with_saved)
unfolding create_contact trim_start trim_end is_empty starts_with_plus map_optional
    find_by_owner_and_phone_owned find_id_by_phone insert_contact create_contact_raw cleaned is_e164
    normalize_e164 is_international all_digits
creates = refl

changes-create_contact_example :
    (update_contact 1 60 (some "Leo") none with_saved
      ≡ (err (not_found "Contact not found"), with_saved))
    × (delete_contact 1 60 with_saved ≡ (err (not_found "Contact not found"), with_saved))
changes-create_contact_example =
    changes-create_contact 6 60 40 1 " +57 300 456" none book with_saved answer (some "Leo") none
      creates refl refl

abbrev hello : NewMessage
hello = record {
  content_encrypted = some "hello";
  content_iv = some "iv";
  message_type = "text";
  reply_to_id = none;
  is_forwarded = false;
  metadata = none;
}

-- users 1 and 2 in the private chat 10
abbrev two : Inbox.Store
two = record {
  chat = record {
    users = 1 ∷ 2 ∷ [];
    chats = new_chat 10 1 private_chat none 1 ∷ [];
    participants = joined 1 10 1 ∷ joined 1 10 2 ∷ [];
    published = [];
  };
  user_blocks = [];
  messages = [];
  statuses = [];
  reactions = [];
  settings = [];
  redis = record { slots = λ p x. record { code = none; attempts = none }; rates = λ k. none };
  pushed = [];
}

abbrev apart_two : Inbox.Store
apart_two = record two { user_blocks = new_block 20 30 1 2 ∷ [] }

blocks_2 : block_user 20 30 1 2 two ≡ (ok (blocked_created 20 2), apart_two)
unfolding block_user is_user_blocked add_block insert_block
blocks_2 = refl

send_message-block_user_example :
    let answer : Result Message × Inbox.Store =
      (err (unauthorized "cannot send messages in blocked private chat"), apart_two) in
    (send_message 200 40 1 10 hello apart_two ≡ answer)
    × (send_message 200 40 2 10 hello apart_two ≡ answer)
unfolding is_private ChatType.as_db_str
send_message-block_user_example =
    send_message-block_user 20 30 1 2 two apart_two 20 2 200 40 10 hello
      (new_chat 10 1 private_chat none 1) blocks_2 refl refl refl refl
