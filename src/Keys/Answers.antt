-- ===== src/Keys/Answers.antt =====
-- The answers of `upload_keys` and `get_key_bundle` of crates/api/src/handlers/keys/handlers.rs, and
-- what they have written by then.
use mesty_api.Common.{
  ℕ, ◌≡◌, refl, true, String, none, List, [], ◌∷◌, ◌||◌, ◌==◌, find?, is_some, if◌then◌else◌,
  concat, arith,
}
use mesty_api.DomainError.{Result, ok, err, status_code}
use mesty_api.Keys.Store.{
  SignedPrekey, OneTimePrekey, UserKeys, Store, is_keys_of, get_keys, decrement, upsert_keys,
  get_public_key_bundle, is_blocked,
}
use mesty_api.Keys.Validation.{fault, Crypto, validate_one_time_prekeys}
use mesty_api.Keys.Handlers.{Response, error, upload_keys, upload_one_time, get_key_bundle}
use mesty_api.Keys.Effects.{accepts, with_keys, handed, refused, get_key_bundle_after}

-- An upload with a valid signed prekey whose one-time prekeys are refused is answered with 400, and has
-- replaced the user's identity key and signed prekey.
pub upload_keys-fault :
    (c : Crypto) (auth : ℕ) (identity_key : String) (spk : SignedPrekey) (p : OneTimePrekey)
    (ps : List OneTimePrekey) (e : String) (s : Store)
    → accepts c identity_key spk ≡ true
    → validate_one_time_prekeys c (p ∷ ps) ≡ fault e
    → upload_keys c auth identity_key spk (p ∷ ps) s ≡ (
      ok (record {
        code = 400;
        header = none;
        body = error (concat "invalid one_time_prekeys: " e);
      }),
      with_keys auth identity_key spk s,
    )
unfolding upload_keys upload_one_time upsert_keys
upload_keys-fault c auth identity_key spk p ps e s valid invalid = ground arith

-- the status of an answer
abbrev pub status : Result Response → ℕ
status (ok r) = r.code
status (err e) = status_code e

keys_after :
    (u v : ℕ) (ks : List UserKeys)
    → is_some (find? (is_keys_of u) (decrement v ks)) ≡ is_some (find? (is_keys_of u) ks)
keys_after u v [] = refl
keys_after u v (k ∷ ks) = ground (arith, keys_after u v ks)

-- `get_key_bundle` answers 400 for the user's own keys, 403 if either user has blocked the other, 404
-- if the other user has no keys, and 200 with the bundle otherwise. A refused request changes nothing;
-- with 404, as with 200, the first free one-time prekey of the other user is consumed.
pub get_key_bundle-status :
    (auth target : ℕ) (s : Store)
    → (status (get_key_bundle auth target s).0 ≡ (
        if target == auth
        then 400
        else if is_blocked auth target s || is_blocked target auth s
        then 403
        else if is_some (get_keys target s)
        then 200
        else 404))
      × ((get_key_bundle auth target s).1 ≡ (if refused auth target s then s else handed target s))
unfolding get_key_bundle get_public_key_bundle status_code
get_key_bundle-status auth target s =
    (ground (arith, keys_after target target s.user_keys), get_key_bundle_after auth target s)
