-- ===== src/Attachments/Handlers.antt =====
-- The endpoints of crates/api/src/handlers/attachments/handlers.rs and the object store's address of
-- crates/api/src/services/storage.rs. The client of the object store is a parameter.
use Prim.Native.Char.{Char, code}
use Prim.Native.String as Text
use Prim.Native.String.{String}
use mesty_api.Common.{
  ℕ, ◌*◌, Bool, false, Option, none, some, [], ◌∷◌, ◌&&◌, ◌||◌, ◌==◌, not, any, leb, ltb, is_empty,
  trim, str_eq, concat, if◌then◌else◌,
}
use mesty_api.DomainError.{not_found, validation, Result, pure, throw_if, ok_or, ◌>>=◌, ◌>>◌}
use mesty_api.Keys.Store.{ℤ, pos, negsuc}
use mesty_api.Chat.Chats.{get_chat_for_user}
use mesty_api.Attachments.Store.{Store, at_chats}
use mesty_api.Attachments.Queries as Queries
use mesty_api.Attachments.Queries.{create_pending_attachment, get_pending_attachment_for_user}

-- `S3StorageService`: the requests of its client, the bucket and the endpoint
pub record Storage : Type 0 where
  pub presign_put_url : String → String → ℕ → Result String
  pub head_object : String → Result (Unit {0})
  pub bucket : String
  pub endpoint : String
  pub uuid_text : ℕ → String

-- `trim_end_matches('/')`
unfoldable pub trim_end_slashes : String → String
trim_end_slashes Text.[] = Text.[]
trim_end_slashes (Text.◌∷◌ c s) =
    let rest = trim_end_slashes s in
    if is_empty rest && code c == 47 then Text.[] else Text.◌∷◌ c rest

unfoldable pub bucket_object_url : Storage → String → String
bucket_object_url store key =
    concat (trim_end_slashes store.endpoint) (concat "/" (concat store.bucket (concat "/" key)))

abbrev pub is_kept : Char → Bool
is_kept c =
    leb 48 (code c) && leb (code c) 57
    || leb 65 (code c) && leb (code c) 90
    || leb 97 (code c) && leb (code c) 122
    || code c == 46
    || code c == 95
    || code c == 45

unfoldable pub replace_others : String → String
replace_others Text.[] = Text.[]
replace_others (Text.◌∷◌ c s) = Text.◌∷◌ (if is_kept c then c else "_") (replace_others s)

unfoldable pub sanitize_file_name : Option String → String
sanitize_file_name none = "file.bin"
sanitize_file_name (some name) =
    if is_empty (trim name) then "file.bin" else replace_others (trim name)

-- the limit in bytes for a type
unfoldable pub max_size : String → ℕ
max_size file_type =
    if any (λ t. str_eq t file_type) ("image/jpeg" ∷ "image/png" ∷ "image/webp" ∷ "image/gif" ∷ [])
    then 25 * 1024 * 1024
    else if any (λ t. str_eq t file_type) ("video/mp4" ∷ "video/quicktime" ∷ "video/webm" ∷ [])
    then 100 * 1024 * 1024
    else if any (λ t. str_eq t file_type)
        ("audio/mpeg" ∷ "audio/ogg" ∷ "audio/aac" ∷ "audio/wav" ∷ [])
    then 25 * 1024 * 1024
    else 100 * 1024 * 1024

unfoldable pub is_positive : ℤ → Bool
is_positive (pos n) = ltb 0 n
is_positive (negsuc n) = false

unfoldable pub exceeds : ℤ → ℕ → Bool
exceeds (pos n) m = ltb m n
exceeds (negsuc n) m = false

unfoldable pub validate_file_constraints : String → ℤ → Store → Result (Unit {0}) × Store
validate_file_constraints file_type file_size = do
  throw_if (not (is_positive file_size)) (validation "file_size must be positive")
  throw_if (exceeds file_size (max_size file_type))
      (validation "file_size exceeds maximum allowed for mime type: ")

-- the key of the object, after the test of the chat
unfoldable pub object_key_for :
    Storage → ℕ → ℕ → Option ℕ → Option String → Store → Result String × Store
object_key_for store attachment_id auth none file_name = pure (
    concat "attachments/stories/"
      (concat (store.uuid_text auth) (concat "/" (store.uuid_text attachment_id))))
object_key_for store attachment_id auth (some chat_id) file_name = do
  chat ← at_chats (get_chat_for_user auth chat_id)
  ok_or chat (not_found "chat not found or not a participant")
  pure (
      concat "attachments/chats/" (
        concat (store.uuid_text chat_id) (
          concat "/"
            (concat (store.uuid_text attachment_id) (concat "/" (sanitize_file_name file_name))))))

pub record CreateUploadUrlResponse : Type 0 where
  pub upload_url : String
  pub file_url : String
  pub attachment_id : ℕ

-- the answer, without its end, five minutes after
unfoldable pub create_upload_url :
    Storage
    → ℕ
    → ℕ
    → ℕ
    → String
    → ℤ
    → Option ℕ
    → Option String
    → Store
    → Result CreateUploadUrlResponse × Store
create_upload_url store attachment_id now auth file_type file_size chat_id file_name = do
  validate_file_constraints file_type file_size
  object_key ← object_key_for store attachment_id auth chat_id file_name
  upload_url ← λ s. (store.presign_put_url object_key file_type 300, s)
  let file_url : String = bucket_object_url store object_key
  create_pending_attachment now (record {
    attachment_id = attachment_id;
    uploader_id = auth;
    chat_id = chat_id;
    object_key = object_key;
    file_url = file_url;
    file_type = file_type;
    file_size = file_size;
    file_name = file_name;
  })
  pure (record { upload_url = upload_url; file_url = file_url; attachment_id = attachment_id })

unfoldable pub confirm_attachment :
    Storage → ℕ → ℕ → ℕ → ℕ → Option String → Option String → Store → Result (Unit {0}) × Store
confirm_attachment store now auth attachment_id message_id encryption_key_enc encryption_iv = do
  found ← get_pending_attachment_for_user attachment_id auth
  attachment ← ok_or found (not_found "pending attachment not found")
  λ s. (store.head_object attachment.object_key, s)
  Queries.confirm_attachment now (record {
    attachment_id = attachment_id;
    message_id = message_id;
    uploader_id = auth;
    encryption_key_enc = encryption_key_enc;
    encryption_iv = encryption_iv;
  })
