-- ===== src/Keys/Store.antt =====
-- The tables `user_keys`, `one_time_prekeys` and `user_blocks`, and the queries of
-- `PostgresKeyRepository` (crates/infrastructure/src/repositories/keys.rs). The rows of
-- `one_time_prekeys` stand in the order of their ids, which a sequence gives. Key ids are signed
-- 32-bit integers that the code only compares.
use mesty_api.Common.{
  ℕ, ◌-◌, Bool, true, false, String, Option, none, some, List, [], ◌∷◌, ◌++◌, ◌&&◌, ◌==◌, not, any,
  find?, count, unwrap_or, is_some, if◌then◌else◌, update_where, upsert,
}
use mathlib.Core.Option
use mesty_api.DomainError.{Result, gets, modify, ◌>>=◌, ◌>>◌}

-- `i32`: `pos n` is n and `negsuc n` is -(n + 1)
pub data ℤ : Type 0 where
  pos negsuc : ℕ → ℤ

abbrev pub same : ℤ → ℤ → Bool
same (pos a) (pos b) = a == b
same (negsuc a) (negsuc b) = a == b
same (pos _) (negsuc _) = false
same (negsuc _) (pos _) = false

pub record SignedPrekey : Type 0 where
  pub id : ℤ
  pub key : String
  pub signature : String

pub record OneTimePrekey : Type 0 where
  pub id : ℤ
  pub key : String

pub record UserKeys : Type 0 where
  pub user_id : ℕ
  pub identity_key : String
  pub signed_prekey : SignedPrekey
  pub prekey_count : ℕ

pub record PrekeyRow : Type 0 where
  pub user_id : ℕ
  pub key_id : ℤ
  pub public_key : String
  pub is_consumed : Bool

pub record Block : Type 0 where
  pub id : ℕ
  pub blocker_id : ℕ
  pub blocked_id : ℕ
  pub created_at : ℕ

pub record Store : Type 0 where
  pub user_keys : List UserKeys
  pub one_time_prekeys : List PrekeyRow
  pub user_blocks : List Block

pub record KeyBundleWithOpk : Type 0 where
  pub identity_key : String
  pub signed_prekey : SignedPrekey
  pub one_time_prekey : Option OneTimePrekey

-- `user_id = u`, on both tables
abbrev pub is_keys_of : ℕ → UserKeys → Bool
is_keys_of u k = k.user_id == u

-- `user_id = u AND is_consumed = FALSE`
abbrev pub is_free : ℕ → PrekeyRow → Bool
is_free u p = p.user_id == u && not p.is_consumed

-- `UNIQUE (user_id, key_id)`
abbrev pub is_key : ℕ → ℤ → PrekeyRow → Bool
is_key u k p = p.user_id == u && same p.key_id k

-- `prekey_count` of a row that is inserted is 0, by default, and an update keeps it
unfoldable pub upsert_keys : ℕ → String → SignedPrekey → Store → Result (Unit {0}) × Store
upsert_keys u identity_key signed_prekey = modify (λ s. record s {
  user_keys =
      upsert (is_keys_of u)
        (record {
          user_id = u;
          identity_key = identity_key;
          signed_prekey = signed_prekey;
          prekey_count = 0;
        })
        (λ k. record k { identity_key = identity_key; signed_prekey = signed_prekey }) s.user_keys;
})

-- `INSERT … SELECT … ON CONFLICT (user_id, key_id) DO NOTHING`
unfoldable pub insert_prekeys : ℕ → List OneTimePrekey → List PrekeyRow → List PrekeyRow
insert_prekeys u [] rows = rows
insert_prekeys u (p ∷ ps) rows = insert_prekeys u ps (
    if any (is_key u p.id) rows
    then rows
    else rows
      ++ (record { user_id = u; key_id = p.id; public_key = p.key; is_consumed = false } ∷ []))

abbrev pub set_count : ℕ → ℕ → List UserKeys → List UserKeys
set_count u n = update_where (is_keys_of u) (λ k. record k { prekey_count = n })

unfoldable pub add_one_time_prekeys : ℕ → List OneTimePrekey → Store → Result (Unit {0}) × Store
add_one_time_prekeys u prekeys = do
  modify (λ s. record s { one_time_prekeys = insert_prekeys u prekeys s.one_time_prekeys })
  modify
      (λ s. record s { user_keys = set_count u (count (is_free u) s.one_time_prekeys) s.user_keys })

abbrev pub get_keys : ℕ → Store → Option UserKeys
get_keys u s = find? (is_keys_of u) s.user_keys

abbrev pub get_prekey_count : ℕ → Store → ℕ
get_prekey_count u s = unwrap_or (Option.map (λ k. k.prekey_count) (get_keys u s)) 0

abbrev pub is_blocked : ℕ → ℕ → Store → Bool
is_blocked u target s = any (λ b. b.blocker_id == u && b.blocked_id == target) s.user_blocks

-- the first row that is free, and the rows with that one consumed
unfoldable pub consume : ℕ → List PrekeyRow → Option PrekeyRow × List PrekeyRow
consume u [] = (none, [])
consume u (p ∷ ps) =
    let (found, rest) = consume u ps in
    if is_free u p then (some p, record p { is_consumed = true } ∷ ps) else (found, p ∷ rest)

abbrev pub decrement : ℕ → List UserKeys → List UserKeys
decrement u = update_where (is_keys_of u) (λ k. record k { prekey_count = k.prekey_count - 1 })

abbrev pub prekey : PrekeyRow → OneTimePrekey
prekey p = record { id = p.key_id; key = p.public_key }

abbrev pub bundle : Option PrekeyRow → UserKeys → KeyBundleWithOpk
bundle opk k = record {
  identity_key = k.identity_key;
  signed_prekey = k.signed_prekey;
  one_time_prekey = Option.map prekey opk;
}

-- `get_user_public_keys`: a one-time key is consumed first, then the keys of the user are read
unfoldable pub get_public_key_bundle : ℕ → Store → Result (Option KeyBundleWithOpk) × Store
get_public_key_bundle u = do
  found ← gets (λ s. consume u s.one_time_prekeys)
  modify (λ s. record s {
    one_time_prekeys = found.1;
    user_keys = if is_some found.0 then decrement u s.user_keys else s.user_keys;
  })
  gets (λ s. Option.map (bundle found.0) (get_keys u s))
