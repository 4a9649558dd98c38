-- ===== src/Keys/Validation.antt =====
-- The checks on uploaded keys: `verify_signed_prekey`, `validate_one_time_prekeys` and
-- `compute_fingerprint` of crates/api/src/handlers/keys/handlers.rs. Base64, Ed25519 and SHA-256 are
-- the crates base64, ed25519_dalek and sha2: a record of functions, over bytes as numbers.
pub mod Spec
use mesty_api.Common.{
  ℕ, Bool, true, false, String, Option, none, some, List, [], ◌∷◌, ◌||◌, ◌==◌, not, ltb, length,
  any, if◌then◌else◌, concat, in_order,
}
use text.Mathlib.Text.{get?}
use mesty_api.Keys.Store.{ℤ, pos, negsuc, same, OneTimePrekey}

-- `Result<A, String>`
pub data Checked (A : Type 0) : Type 0 where
  fine : A → Checked A
  fault : String → Checked A

infixl 5 ◌>>=◌ ◌>>◌
abbrev pub ◌>>=◌ : {A B : Type 0} → Checked A → (A → Checked B) → Checked B
◌>>=◌ (fine a) f = f a
◌>>=◌ (fault e) f = fault e

abbrev pub ◌>>◌ : {A B : Type 0} → Checked A → Checked B → Checked B
m >> k = m >>= λ _. k

pub record Crypto : Type 0 where
  -- `BASE64.decode`
  pub decode : String → Checked (List ℕ)
  -- `VerifyingKey::from_bytes`, whose value is the key's bytes
  pub from_bytes : List ℕ → Checked (List ℕ)
  -- `verify` of a key on a message and a signature
  pub verify : List ℕ → List ℕ → List ℕ → Checked (Unit {0})
  -- `Sha256` of a text, in lower-case hexadecimal digits
  pub sha256 : String → String

-- `map_err(|e| format!("…: {}", e))`
abbrev pub label : {A : Type 0} → String → Checked A → Checked A
label text (fine a) = fine a
label text (fault e) = fault (concat text e)

abbrev pub require : Bool → String → Checked (Unit {0})
require true text = fine tt
require false text = fault text

module _ (c : Crypto) where
  unfoldable pub verify_signed_prekey : String → String → String → Checked (Unit {0})
  verify_signed_prekey identity_key_b64 signed_prekey_b64 signature_b64 = do
    identity_key_bytes ← label "invalid identity_key base64: " (c.decode identity_key_b64)
    require (length identity_key_bytes == 32) "identity_key must be 32 bytes"
    identity_key ← label "invalid identity_key: " (c.from_bytes identity_key_bytes)
    spk_bytes ← label "invalid signed_prekey base64: " (c.decode signed_prekey_b64)
    require (length spk_bytes == 32) "signed_prekey must be 32 bytes"
    sig_bytes ← label "invalid signature base64: " (c.decode signature_b64)
    require (length sig_bytes == 64) "signature must be 64 bytes"
    label "signature verification failed: " (c.verify identity_key spk_bytes sig_bytes)

  abbrev pub is_negative : ℤ → Bool
  is_negative (pos _) = false
  is_negative (negsuc _) = true

  -- one round of the loop of `validate_one_time_prekeys`, after the ids `seen`
  unfoldable pub check_prekey : List ℤ → OneTimePrekey → Checked (Unit {0})
  check_prekey seen p = do
    require (not (is_negative p.id)) "invalid prekey id: (must be positive)"
    require (not (any (λ i. same i p.id) seen)) "duplicate prekey id: "
    key_bytes ← label "invalid prekey key base64: " (c.decode p.key)
    require (length key_bytes == 32) "prekey must be 32 bytes"

  unfoldable pub validate_from : List ℤ → List OneTimePrekey → Checked (Unit {0})
  validate_from seen [] = fine tt
  validate_from seen (p ∷ ps) = do check_prekey seen p; validate_from (p.id ∷ seen) ps

  unfoldable pub validate_one_time_prekeys : List OneTimePrekey → Checked (Unit {0})
  validate_one_time_prekeys prekeys = do
    require (not (ltb 200 (length prekeys))) "maximum 200 one-time prekeys allowed"
    validate_from [] prekeys

  -- The slices `[..30]` and `[30..60]` panic on a digest that is shorter, which a digest of 64 digits
  -- is not: `none` is the panic.
  unfoldable pub compute_fingerprint : String → String → Option (String × String × String)
  compute_fingerprint key1 key2 =
      let (min_key, max_key) = in_order key1 key2 in
      let digest = c.sha256 (concat min_key max_key) in
      elim (get? digest 0 30) [
        | none ↦ none
        | some first ↦ elim (get? digest 30 60) [
          | none ↦ none
          | some second ↦ some (concat first (concat " " second), key1, key2)
        ]
      ]
