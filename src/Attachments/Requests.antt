-- ===== src/Attachments/Requests.antt =====
-- Sequences of requests to the endpoints of crates/api/src/handlers/attachments/handlers.rs.
use mesty_api.Common.{ℕ, String, Option, List, [], ◌∷◌}
use mesty_api.Keys.Store.{ℤ}
use mesty_api.Attachments.Store.{Store}
use mesty_api.Attachments.Handlers.{Storage, create_upload_url, confirm_attachment}
use mesty_api.Attachments.Uploads.{create_upload_url-Inserted}
use mesty_api.Attachments.Linking.{
  AllAttached, Inserted-AllAttached, confirm_attachment-AllAttached,
}

-- a request to one of the two endpoints, with the id and the time it draws
pub data Request : Type 0 where
  create :
      (attachment_id now auth : ℕ) (file_type : String) (file_size : ℤ) (chat_id : Option ℕ)
      (file_name : Option String)
      → Request
  confirm :
      (now auth attachment_id message_id : ℕ) (encryption_key_enc encryption_iv : Option String)
      → Request

unfoldable pub serve : Storage → Request → Store → Store
serve store (create i now u t z c f) s = (create_upload_url store i now u t z c f s).1
serve store (confirm now u i m key iv) s = (confirm_attachment store now u i m key iv s).1

unfoldable pub serve_all : Storage → List Request → Store → Store
serve_all store [] s = s
serve_all store (q ∷ qs) s = serve_all store qs (serve store q s)

serve-AllAttached :
    (store : Storage) (q : Request) (s : Store) → AllAttached s → AllAttached (serve store q s)
unfolding serve
serve-AllAttached store (create i now u t z c f) s h =
    Inserted-AllAttached s _ (create_upload_url-Inserted store i now u t z c f s) h
serve-AllAttached store (confirm now u i m key iv) s h =
    confirm_attachment-AllAttached store now u i m key iv s h

-- Requests to the two endpoints keep, whatever the object store answers: an attachment has a message
-- exactly when it is confirmed, the message is one of the chat for which the file was uploaded, and the
-- size is positive and at most 100 MiB.
pub serve_all-AllAttached :
    (store : Storage) (qs : List Request) (s : Store)
    → AllAttached s
    → AllAttached (serve_all store qs s)
unfolding serve_all
serve_all-AllAttached store [] s h = h
serve_all-AllAttached store (q ∷ qs) s h =
    serve_all-AllAttached store qs (serve store q s) (serve-AllAttached store q s h)
