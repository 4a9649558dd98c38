-- ===== src/Keys/Requests.antt =====
-- The endpoints of crates/api/src/handlers/keys/handlers.rs as requests that arrive one after another.
use mesty_api.Common.{ℕ, String, List, [], ◌∷◌}
use mesty_api.Keys.Store.{SignedPrekey, OneTimePrekey, Block, Store}
use mesty_api.Keys.Validation.{Crypto}
use mesty_api.Keys.Handlers.{
  upload_keys, upload_prekeys, get_key_bundle, get_fingerprint, get_my_prekey_count,
}

-- a request with the authenticated user first, or a change of `user_blocks` by another component
pub data Request : Type 0 where
  post_keys :
      (auth : ℕ) (identity_key : String) (signed_prekey : SignedPrekey)
      (one_time_prekeys : List OneTimePrekey)
      → Request
  post_prekeys : (auth : ℕ) (prekeys : List OneTimePrekey) → Request
  get_bundle : (auth target : ℕ) → Request
  get_print : (auth target : ℕ) → Request
  get_count : (auth : ℕ) → Request
  change_blocks : List Block → Request

module _ (c : Crypto) where
  -- the state after a request
  unfoldable pub serve : Request → Store → Store
  serve (post_keys auth identity spk ps) s = (upload_keys c auth identity spk ps s).1
  serve (post_prekeys auth ps) s = (upload_prekeys auth ps s).1
  serve (get_bundle auth target) s = (get_key_bundle auth target s).1
  serve (get_print auth target) s = (get_fingerprint c auth target s).1
  serve (get_count auth) s = (get_my_prekey_count auth s).1
  serve (change_blocks bs) s = record s { user_blocks = bs }

  unfoldable pub serve_all : List Request → Store → Store
  serve_all [] s = s
  serve_all (r ∷ rs) s = serve_all rs (serve r s)
