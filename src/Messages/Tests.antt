-- ===== src/Messages/Tests.antt =====
-- A private chat and a group, on which the theorems on the messages of
-- crates/infrastructure/src/repositories/chat.rs and crates/api/src/handlers/chats/handlers.rs are applied.
use Prim.Native.Char.{Char, code}
use Prim.Native.String as Text
use Prim.Native.String.{String}
use mesty_api.Common.{
  ℕ, zero, suc, ◌≤◌, ◌≡◌, refl, ap, true, false, none, some, List, [], ◌∷◌, ◌==◌, arith,
  if◌then◌else◌, count, length,
}
use mesty_api.DomainError.{ok, Guarded}
use mesty_api.Keys.Store.{pos}
use mesty_api.Chat.ChatType
use mesty_api.Chat.ChatType.{group, private_chat}
use mesty_api.Chat.Role.{member}
use mesty_api.Chat.Store.{Participant}
use mesty_api.Chat.Chats.{new_chat}
use mesty_api.Messages.Store.{Message, sent, Store, is_message_type, has_content, is_consistent}
use mesty_api.Messages.Queries.{
  NewMessage, new_message, send_message, unread_count, edit_message, ensure_active_membership,
  ensure_not_blocked_in, ensure_not_blocked_in_private_chat, insert_message, refers, lacks_content,
}
use mesty_api.Messages.Listing.{
  MessageCursor, before, after, Codec, decode_message_cursor, get_messages,
}
use mesty_api.Messages.Listing.Answers.{IsFaithful}
use mesty_api.Messages.Listing.Positions.{Distinct}
use mesty_api.Messages.Listing.Walk.{follow, follow-timeline}
use mesty_api.Messages.Listing.Gaps.{get_messages-last_page, get_messages-overlap}
use mesty_api.Messages.Sending.{with_message}
use mesty_api.Messages.Reading.{mark_all, send_message-stays_unread}
use mesty_api.Messages.Editing.Contents.{IsEditable, Edited, edit_message-Guarded}
use mesty_api.Messages.Requests.{Request, send, edit, delete}
use mesty_api.Messages.Syncing.{sync_request}
use mesty_api.Messages.Syncing.Missed.{entry, Holds, sync_request-send_message}
use mesty_api.Messages.Handlers.{publish_message_event}
use mesty_api.Messages.Notifying.{is_for, pushed-publish_message_event}
use mesty_api.Messages.Settings.{
  UpdateChatSettings, first_settings, to_settings, no_settings, get_chat_settings,
  update_chat_settings,
}
use mesty_api.Messages.Settings.Merging.{merge, get_chat_settings-update_chat_settings}

-- a cursor as so many a's and so many b's
repeat : ℕ → Char → String → String
repeat zero c s = s
repeat (suc n) c s = Text.◌∷◌ c (repeat n c s)

letters : String → ℕ × ℕ
letters Text.[] = (0, 0)
letters (Text.◌∷◌ c s) = let (a, b) = letters s in if code c == 97 then (suc a, b) else (a, suc b)

letters-b : (n : ℕ) → letters (repeat n "b" "") ≡ (0, n)
unfolding letters repeat
letters-b zero = refl
letters-b (suc n) = ground (arith, letters-b n)

letters-a : (m n : ℕ) → letters (repeat m "a" (repeat n "b" "")) ≡ (m, n)
unfolding letters repeat
letters-a zero n = letters-b n
letters-a (suc m) n = ground (arith, letters-a m n)

abbrev plain : Codec (ℕ × ℕ) MessageCursor
plain = record {
  encode = λ p. repeat p.0 "a" (repeat p.1 "b" "");
  decode = λ s. some (letters s);
  to_vec = λ c. some (c.created_at, c.message_id);
  from_slice = λ p. some (record { created_at = p.0; message_id = p.1 });
}

plain-IsFaithful : IsFaithful (ℕ × ℕ) plain
plain-IsFaithful c =
    ((c.created_at, c.message_id), refl, ap some (letters-a c.created_at c.message_id), refl)

abbrev row : ℕ → ℕ → Participant
row c u = record {
  chat_id = c;
  user_id = u;
  role = member;
  encryption_key_enc = none;
  added_by = some 1;
  joined_at = 1;
  left_at = none;
}

abbrev text_message : ℕ → ℕ → ℕ → Message
text_message i at u = record {
  id = i;
  chat_id = 10;
  sender_id = some u;
  reply_to_id = none;
  content_encrypted = some "c";
  content_iv = some "iv";
  message_type = "text";
  metadata = none;
  is_forwarded = false;
  created_at = at;
  edited_at = none;
  deleted_at = none;
}

-- users 1 and 2 in the private chat 10, with three messages, and user 3 in the group 11
abbrev example : Store
example = record {
  chat = record {
    users = 1 ∷ 2 ∷ 3 ∷ [];
    chats = new_chat 10 1 private_chat none 1 ∷ new_chat 11 1 group (some "team") 3 ∷ [];
    participants = row 10 1 ∷ row 10 2 ∷ row 11 3 ∷ [];
    published = [];
  };
  user_blocks = [];
  messages = text_message 102 30 1 ∷ text_message 100 20 1 ∷ text_message 101 20 2 ∷ [];
  statuses =
      record { message_id = 101; user_id = 1; status = sent; updated_at = 20 }
      ∷ record { message_id = 101; user_id = 2; status = sent; updated_at = 20 }
      ∷ [];
  reactions = [];
  settings = [];
  redis = record { slots = λ p x. record { code = none; attempts = none }; rates = λ k. none };
  pushed = [];
}

abbrev hello : NewMessage
hello = record {
  content_encrypted = some "hello";
  content_iv = some "iv";
  message_type = "text";
  reply_to_id = some 100;
  is_forwarded = false;
  metadata = none;
}

example-Distinct : Distinct example.messages
example-Distinct = (
  (λ e. ground (arith, e), (λ e. ground (arith, e), tt)),
  ((λ e. ground (arith, e), tt), (tt, tt)),
)

follow-timeline_example :
    follow plain "" 4 2 10 (some (pos 1)) after none example
    ≡ some (text_message 100 20 1 ∷ text_message 101 20 2 ∷ text_message 102 30 1 ∷ [])
follow-timeline_example =
    follow-timeline plain plain-IsFaithful "" 2 10 (some (pos 1)) example (refl, refl)
      example-Distinct (omega arith)

get_messages-last_page_example : get_messages plain "" 2 10 none none (some "before") example ≡ (
  ok (record {
    items = text_message 100 20 1 ∷ text_message 101 20 2 ∷ text_message 102 30 1 ∷ [];
    next_cursor = some (repeat 30 "a" (repeat 102 "b" ""));
    has_more_items = false;
  }),
  example,
)
unfolding decode_message_cursor plain-IsFaithful
get_messages-last_page_example =
    get_messages-last_page plain plain-IsFaithful "" 2 10 none none none example (refl, refl) refl
      before refl

get_messages-overlap_example :
    get_messages plain "" 2 10 none (some (pos 1)) (some "before") example ≡ (
      ok (record {
        items = text_message 101 20 2 ∷ [];
        next_cursor = some (repeat 20 "a" (repeat 101 "b" ""));
        has_more_items = true;
      }),
      example,
    )
unfolding decode_message_cursor plain-IsFaithful
get_messages-overlap_example =
    get_messages-overlap plain plain-IsFaithful "" 2 10 none none (some (pos 1)) example
      (refl, refl) refl (text_message 102 30 1) (text_message 101 20 2) (text_message 100 20 1 ∷ [])
      1 refl (omega arith) refl (omega arith)

sends :
    send_message 103 40 1 10 hello example
    ≡ (ok (new_message 103 40 1 10 hello), with_message 103 40 1 10 hello example)
unfolding send_message ensure_active_membership ensure_not_blocked_in
    ensure_not_blocked_in_private_chat insert_message ChatType.as_db_str is_message_type has_content
    is_consistent refers lacks_content
sends = refl

send_message-stays_unread_example :
    1
    ≤ unread_count 1 10
        (mark_all 1 ((50, 10, 45) ∷ (60, 10, 55) ∷ []) (with_message 103 40 1 10 hello example))
send_message-stays_unread_example =
    send_message-stays_unread 103 40 1 10 hello example _ _ ((50, 10, 45) ∷ (60, 10, 55) ∷ []) sends
      refl

edit_message-Guarded_example :
    Guarded example
      (IsEditable 40 1 100 (some "new") (some "iv2") example)
      (Edited 40 1 100 (some "new") (some "iv2") example)
      (edit_message 40 1 100 (some "new") (some "iv2") example)
edit_message-Guarded_example = edit_message-Guarded 40 1 100 (some "new") (some "iv2") example

abbrev by_others : List (ℕ × ℕ × Request)
by_others =
    (40, 2, edit 10 100 (some "x") (some "y"))
    ∷ (41, 2, delete 10 100)
    ∷ (42, 3, send 100 11 hello)
    ∷ (43, 2, delete 10 101)
    ∷ []

pushed-publish_message_event_example :
    count
      (is_for 2)
      (publish_message_event (λ u. false) 40 (text_message 102 30 1) 1 example).pushed
    ≡ 1
pushed-publish_message_event_example =
    pushed-publish_message_event (λ u. false) 40 (text_message 102 30 1) 1 2 example

abbrev mute : UpdateChatSettings
mute = record {
  is_muted = some true;
  muted_until = none;
  is_pinned = none;
  pin_order = none;
  is_archived = none;
}

abbrev muted : Store
muted = record example { settings = first_settings 2 10 mute ∷ [] }

updates :
    update_chat_settings 2 10 mute example ≡ (ok (to_settings (first_settings 2 10 mute)), muted)
unfolding update_chat_settings get_chat_settings
updates = refl

get_chat_settings-update_chat_settings_example :
    (get_chat_settings 2 10 muted).0 ≡ ok (some (merge mute no_settings))
get_chat_settings-update_chat_settings_example =
    get_chat_settings-update_chat_settings 2 10 mute example _ muted updates

sync_request-send_message_example :
    let answer = sync_request 2 (some 25) (with_message 103 40 1 10 hello example) in
    Holds (entry 103 40 1 10 hello) answer × (length answer ≤ 100)
sync_request-send_message_example =
    sync_request-send_message 103 40 1 10 hello example (with_message 103 40 1 10 hello example)
      (new_message 103 40 1 10 hello) 2 25 sends refl (omega arith) (omega arith)
