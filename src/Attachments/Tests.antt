-- ===== src/Attachments/Tests.antt =====
-- A chat with a message and uploads, on which the theorems on the attachments
-- (crates/api/src/handlers/attachments/handlers.rs) are applied.
use mesty_api.Common.{
  inl, inr, ap, arith, refl, is_empty, ◌≡◌, false, none, some, List, [], ◌∷◌, is_empty,
}
use mesty_api.DomainError.{ok}
use mesty_api.Keys.Store.{pos}
use mesty_api.Chat.ChatType.{private_chat}
use mesty_api.Chat.Chats.{new_chat}
use mesty_api.Chat.Participants.{joined}
use mesty_api.Messages.Store.{Message}
use mesty_api.Attachments.Store.{Store}
use mesty_api.Attachments.Handlers.{Storage, sanitize_file_name}
use mesty_api.Attachments.Names.{IsFileName, sanitize_file_name-IsFileName}
use mesty_api.Attachments.Linking.{AllAttached}
use mesty_api.Attachments.Requests.{Request, create, confirm, serve_all, serve_all-AllAttached}

sanitize_file_name-IsFileName_example :
    IsFileName (sanitize_file_name (some " ../my photo.png"))
    × (sanitize_file_name (some "A.z") ≡ "A.z")
unfolding is_empty
sanitize_file_name-IsFileName_example =
    sanitize_file_name-IsFileName (some " ../my photo.png") "A.z" (
      (
        inr (inl (omega arith, omega arith)),
        (inr (inr (inr (inl refl))), (inl (omega arith, omega arith), tt)),
      ),
      λ e. ground (arith, ap is_empty e),
    )

abbrev photo : Message
photo = record {
  id = 100;
  chat_id = 10;
  sender_id = some 1;
  reply_to_id = none;
  content_encrypted = none;
  content_iv = none;
  message_type = "image";
  metadata = none;
  is_forwarded = false;
  created_at = 20;
  edited_at = none;
  deleted_at = none;
}

-- users 1 and 2 in the private chat 10, with a message that waits for its file
abbrev one_message : Store
one_message = record {
  inbox = record {
    chat = record {
      users = 1 ∷ 2 ∷ [];
      chats = new_chat 10 1 private_chat none 1 ∷ [];
      participants = joined 1 10 1 ∷ joined 1 10 2 ∷ [];
      published = [];
    };
    user_blocks = [];
    messages = photo ∷ [];
    statuses = [];
    reactions = [];
    settings = [];
    redis = record { slots = λ p x. record { code = none; attempts = none }; rates = λ k. none };
    pushed = [];
  };
  attachments = [];
}

abbrev bucket : Storage
bucket = record {
  presign_put_url = λ key t ttl. ok key;
  head_object = λ key. ok tt;
  bucket = "mesty";
  endpoint = "http://localhost:9000/";
  uuid_text = λ i. "u";
}

abbrev two_requests : List Request
two_requests =
    create 7 30 1 "image/png" (pos 2048) (some 10) (some "a b.png")
    ∷ confirm 31 1 7 100 (some "k") (some "iv")
    ∷ []

serve_all-AllAttached_example : AllAttached (serve_all bucket two_requests one_message)
serve_all-AllAttached_example = serve_all-AllAttached bucket two_requests one_message tt
