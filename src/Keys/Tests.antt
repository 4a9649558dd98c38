-- ===== src/Keys/Tests.antt =====
-- The theorems on keys, applied to a small store of two users; the endpoints are those of
-- crates/api/src/handlers/keys/handlers.rs.
use mesty_api.Common.{
  ℕ, ◌≤◌, ◌≡◌, ◌≢◌, ◌↔◌, refl, false, List, [], ◌∷◌, length, All, count, if◌then◌else◌, str_eq,
  ◌++◌, arith,
}
use mesty_api.Keys.Store.{
  ℤ, pos, negsuc, SignedPrekey, OneTimePrekey, UserKeys, PrekeyRow, Store, is_key,
  get_public_key_bundle, consume, add_one_time_prekeys, insert_prekeys,
}
use mesty_api.Keys.Validation.{fine, Crypto, validate_one_time_prekeys}
use mesty_api.Keys.Validation.Spec.{IsSound, AllDistinct, validate_one_time_prekeys_iff}
use mesty_api.Keys.Handlers.{get_key_bundle, upload_prekeys}
use mesty_api.Keys.Requests.{Request, post_prekeys, get_bundle, serve, serve_all}
use mesty_api.Keys.Effects.{handed}
use mesty_api.Keys.Handouts.{get_key_bundle-once}
use mesty_api.Keys.Counts.{IsCounted, serve_all-IsCounted}
use mesty_api.Keys.Answers.{status, get_key_bundle-status}

abbrev thirty_two : List ℕ
thirty_two =
    1 ∷ 2 ∷ 3 ∷ 4 ∷ 5 ∷ 6 ∷ 7 ∷ 8 ∷ 1 ∷ 2 ∷ 3 ∷ 4 ∷ 5 ∷ 6 ∷ 7 ∷ 8 ∷ 1 ∷ 2 ∷ 3 ∷ 4 ∷ 5 ∷ 6 ∷ 7 ∷ 8
    ∷ 1 ∷ 2 ∷ 3 ∷ 4 ∷ 5 ∷ 6 ∷ 7 ∷ 8 ∷ []

-- keys of one letter decode to 32 bytes, a signature to 64, and every signature verifies
abbrev toy : Crypto
toy = record {
  decode = λ t. if str_eq t "sig" then fine (thirty_two ++ thirty_two) else fine thirty_two;
  from_bytes = λ b. fine b;
  verify = λ k m s. fine tt;
  sha256 = λ t. "0123456789012345678901234567890123456789012345678901234567890123";
}

abbrev keys_of : ℕ → ℕ → UserKeys
keys_of u n = record {
  user_id = u;
  identity_key = "k";
  signed_prekey = record { id = pos 1; key = "s"; signature = "sig" };
  prekey_count = n;
}

abbrev free_row : ℕ → ℕ → PrekeyRow
free_row u i = record { user_id = u; key_id = pos i; public_key = "p"; is_consumed = false }

abbrev two_users : Store
two_users = record {
  user_keys = keys_of 1 2 ∷ keys_of 2 0 ∷ [];
  one_time_prekeys = free_row 1 7 ∷ free_row 1 8 ∷ [];
  user_blocks = [];
}

two_users-IsCounted : IsCounted two_users
two_users-IsCounted u = ground arith

abbrev prekey_at : ℕ → OneTimePrekey
prekey_at i = record { id = pos i; key = "p" }

abbrev signed : SignedPrekey
signed = record { id = pos 1; key = "s"; signature = "sig" }

abbrev requests : List Request
requests = post_prekeys 1 (prekey_at 7 ∷ prekey_at 9 ∷ []) ∷ get_bundle 1 2 ∷ []

serve_all-IsCounted_example : IsCounted (serve_all toy requests two_users)
serve_all-IsCounted_example = serve_all-IsCounted toy requests two_users two_users-IsCounted

one_id : (i : ℤ) → count (is_key 1 i) two_users.one_time_prekeys ≤ 1
one_id (pos n) = ground arith
one_id (negsuc n) = ground arith

get_key_bundle-once_example : pos 8 ≢ pos 7
unfolding get_key_bundle get_public_key_bundle consume serve_all serve upload_prekeys
    add_one_time_prekeys insert_prekeys
get_key_bundle-once_example =
    get_key_bundle-once toy 1 2 2 (prekey_at 7) (prekey_at 8) requests two_users one_id refl refl

abbrev two_prekeys : List OneTimePrekey
two_prekeys = prekey_at 7 ∷ prekey_at 8 ∷ []

validate_one_time_prekeys_iff_example :
    (validate_one_time_prekeys toy two_prekeys ≡ fine tt)
    ↔ ((length two_prekeys ≤ 200) × All (IsSound toy) two_prekeys × AllDistinct toy [] two_prekeys)
validate_one_time_prekeys_iff_example = validate_one_time_prekeys_iff toy two_prekeys

get_key_bundle-status_example :
    (status (get_key_bundle 2 1 two_users).0 ≡ 200)
    × ((get_key_bundle 2 1 two_users).1 ≡ handed 1 two_users)
get_key_bundle-status_example = get_key_bundle-status 2 1 two_users
