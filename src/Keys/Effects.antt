-- ===== src/Keys/Effects.antt =====
-- What the endpoints of crates/api/src/handlers/keys/handlers.rs write.
use mesty_api.Common.{
  ℕ, ◌≡◌, refl, Bool, true, false, String, Option, none, List, [], ◌∷◌, ◌&&◌, ◌||◌, ◌==◌, not,
  count, is_some, length, str_eq, if◌then◌else◌, upsert, arith,
}
use mathlib.Core.Option
use mesty_api.DomainError.{Result, ok, err}
use mesty_api.Keys.Store.{
  SignedPrekey, OneTimePrekey, Store, is_keys_of, is_free, upsert_keys, insert_prekeys, set_count,
  add_one_time_prekeys, get_keys, is_blocked, consume, decrement, get_public_key_bundle, prekey,
}
use mesty_api.Keys.Validation.{fine, fault, Crypto, verify_signed_prekey, validate_one_time_prekeys}
use mesty_api.Keys.Handlers.{
  Response, key_bundle, upload_keys, upload_one_time, upload_prekeys, get_key_bundle,
  get_fingerprint, get_my_prekey_count,
}

-- the keys and one-time prekeys that a user's upload adds
abbrev pub with_prekeys : ℕ → List OneTimePrekey → Store → Store
with_prekeys u ps s = record s {
  one_time_prekeys = insert_prekeys u ps s.one_time_prekeys;
  user_keys = set_count u (count (is_free u) (insert_prekeys u ps s.one_time_prekeys)) s.user_keys;
}

abbrev pub with_keys : ℕ → String → SignedPrekey → Store → Store
with_keys u identity_key signed_prekey s = record s {
  user_keys =
      upsert (is_keys_of u)
        (record {
          user_id = u;
          identity_key = identity_key;
          signed_prekey = signed_prekey;
          prekey_count = 0;
        })
        (λ k. record k { identity_key = identity_key; signed_prekey = signed_prekey }) s.user_keys;
}

abbrev pub handed : ℕ → Store → Store
handed u s =
    let found = consume u s.one_time_prekeys in
    record s {
      one_time_prekeys = found.1;
      user_keys = if is_some found.0 then decrement u s.user_keys else s.user_keys;
    }

-- the checks on the keys that `upload_keys` makes before it writes
abbrev pub accepts : Crypto → String → SignedPrekey → Bool
accepts c identity spk =
    not (str_eq identity "")
    && not (str_eq spk.key "" || str_eq spk.signature "")
    && (elim (verify_signed_prekey c identity spk.key spk.signature) [
      | fine _ ↦ true
      | fault _ ↦ false
    ])

abbrev pub accepts_prekeys : Crypto → List OneTimePrekey → Bool
accepts_prekeys c ps = elim (validate_one_time_prekeys c ps) [ fine _ ↦ true | fault _ ↦ false ]

pub upload_one_time_after :
    (c : Crypto) (u : ℕ) (ps : List OneTimePrekey) (s : Store)
    → (upload_one_time c u ps s).1
      ≡ (if length ps == 0 then s else if accepts_prekeys c ps then with_prekeys u ps s else s)
unfolding upload_one_time add_one_time_prekeys
upload_one_time_after c u [] s = ground arith
upload_one_time_after c u (p ∷ ps) s = ground arith

pub upload_keys_after :
    (c : Crypto) (u : ℕ) (identity : String) (spk : SignedPrekey) (ps : List OneTimePrekey)
    (s : Store)
    → (upload_keys c u identity spk ps s).1 ≡ (
        if accepts c identity spk
        then (upload_one_time c u ps (with_keys u identity spk s)).1
        else s)
unfolding upload_keys upsert_keys
upload_keys_after c u identity spk ps s = ground arith

pub upload_prekeys_after :
    (u : ℕ) (ps : List OneTimePrekey) (s : Store)
    → (upload_prekeys u ps s).1 ≡ (if length ps == 0 then s else with_prekeys u ps s)
unfolding upload_prekeys add_one_time_prekeys
upload_prekeys_after u ps s = ground arith

-- whom `get_key_bundle` refuses before it touches the keys
abbrev pub refused : ℕ → ℕ → Store → Bool
refused auth target s = target == auth || is_blocked auth target s || is_blocked target auth s

pub get_key_bundle_after :
    (auth target : ℕ) (s : Store)
    → (get_key_bundle auth target s).1 ≡ (if refused auth target s then s else handed target s)
unfolding get_key_bundle get_public_key_bundle
get_key_bundle_after auth target s = ground arith

pub get_fingerprint_after :
    (c : Crypto) (auth target : ℕ) (s : Store) → (get_fingerprint c auth target s).1 ≡ s
unfolding get_fingerprint
get_fingerprint_after c auth target s = ground arith

pub get_my_prekey_count_after : (auth : ℕ) (s : Store) → (get_my_prekey_count auth s).1 ≡ s
unfolding get_my_prekey_count
get_my_prekey_count_after auth s = refl

-- the one-time prekey of a response
abbrev pub key_of : Result Response → Option OneTimePrekey
key_of (err _) = none
key_of (ok r) = elim r.body [ key_bundle b ↦ b.one_time_prekey | _ ↦ none ]

pub key_of-get_key_bundle :
    (auth target : ℕ) (s : Store)
    → key_of (get_key_bundle auth target s).0 ≡ (
        if refused auth target s || not (is_some (get_keys target (handed target s)))
        then none
        else Option.map prekey (consume target s.one_time_prekeys).0)
unfolding get_key_bundle get_public_key_bundle
key_of-get_key_bundle auth target s = ground arith
