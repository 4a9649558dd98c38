-- ===== src/Keys/Handlers.antt =====
-- The key endpoints: crates/api/src/handlers/keys/handlers.rs. A handler takes the authenticated user,
-- the path and the body; an early `return Ok((StatusCode, …))` is a response with that status.
use mesty_api.Common.{
  ℕ, String, Option, none, some, List, [], ◌∷◌, ◌==◌, ◌||◌, ltb, length, str_eq, concat,
  if◌then◌else◌,
}
use mesty_api.DomainError.{not_found, internal, Result, pure, gets, ok_or, ◌>>=◌, ◌>>◌}
use mesty_api.Keys.Store
use mesty_api.Keys.Store.{
  ℤ, SignedPrekey, OneTimePrekey, UserKeys, KeyBundleWithOpk, Store, upsert_keys,
  add_one_time_prekeys, get_prekey_count, is_blocked, get_public_key_bundle,
}
use mesty_api.Keys.Validation.{
  fine, fault, Crypto, verify_signed_prekey, validate_one_time_prekeys, compute_fingerprint,
}

pub data Body : Type 0 where
  error : String → Body
  prekey_count : ℕ → Body
  own_count : ℕ → Body
  key_bundle : KeyBundleWithOpk → Body
  fingerprint : (fingerprint your_key their_key : String) → Body

-- `header` is `x-prekey-count`, which `with_prekey_header` sets
pub record Response : Type 0 where
  pub code : ℕ
  pub header : Option ℕ
  pub body : Body

abbrev pub respond : ℕ → String → Store → Result Response × Store
respond code text = pure (record { code = code; header = none; body = error text })

abbrev pub with_prekey_header : Body → ℕ → Response
with_prekey_header body count = record {
  code = 200;
  header = if ltb count 20 then some count else none;
  body = body;
}

-- the body of the response when all is written
abbrev pub counted : ℕ → Store → Result Response × Store
counted auth = do n ← gets (get_prekey_count auth); pure (with_prekey_header (prekey_count n) n)

-- `upload_keys` after `upsert_keys`
unfoldable pub upload_one_time : Crypto → ℕ → List OneTimePrekey → Store → Result Response × Store
upload_one_time c auth [] = counted auth
upload_one_time c auth (p ∷ ps) = elim (validate_one_time_prekeys c (p ∷ ps)) [
  | fault e ↦ respond 400 (concat "invalid one_time_prekeys: " e)
  | fine _ ↦ add_one_time_prekeys auth (p ∷ ps) >> counted auth
]

unfoldable pub upload_keys :
    Crypto → ℕ → String → SignedPrekey → List OneTimePrekey → Store → Result Response × Store
upload_keys c auth identity_key signed_prekey one_time_prekeys =
    if str_eq identity_key ""
    then respond 400 "identity_key is required"
    else if str_eq signed_prekey.key "" || str_eq signed_prekey.signature ""
    then respond 400 "signed_prekey is incomplete"
    else elim (verify_signed_prekey c identity_key signed_prekey.key signed_prekey.signature) [
      | fault e ↦ respond 400 (concat "invalid signed_prekey signature: " e)
      | fine _ ↦
          upsert_keys auth identity_key signed_prekey >> upload_one_time c auth one_time_prekeys
    ]

unfoldable pub upload_prekeys : ℕ → List OneTimePrekey → Store → Result Response × Store
upload_prekeys auth prekeys =
    if length prekeys == 0
    then respond 400 "no prekeys provided"
    else add_one_time_prekeys auth prekeys >> counted auth

unfoldable pub get_key_bundle : ℕ → ℕ → Store → Result Response × Store
get_key_bundle auth target s =
    if target == auth
    then respond 400 "cannot get own key bundle" s
    else if is_blocked auth target s
    then respond 403 "user is blocked" s
    else if is_blocked target auth s
    then respond 403 "you are blocked by this user" s
    else (do
      found ← get_public_key_bundle target
      b ← ok_or found (not_found "user keys not found")
      n ← gets (get_prekey_count target)
      pure (with_prekey_header (key_bundle b) n))
        s

unfoldable pub get_fingerprint : Crypto → ℕ → ℕ → Store → Result Response × Store
get_fingerprint c auth target = do
  yours ← ok_or (← gets (Store.get_keys auth)) (not_found "your keys not found")
  theirs ← ok_or (← gets (Store.get_keys target)) (not_found "target user keys not found")
  (print, your_key, their_key) ←
      ok_or (compute_fingerprint c yours.identity_key theirs.identity_key) (internal "panicked")
  n ← gets (get_prekey_count auth)
  pure (with_prekey_header (fingerprint print your_key their_key) n)

unfoldable pub get_my_prekey_count : ℕ → Store → Result Response × Store
get_my_prekey_count auth = do
  n ← gets (get_prekey_count auth)
  pure (with_prekey_header (own_count n) n)
