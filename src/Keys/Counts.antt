-- ===== src/Keys/Counts.antt =====
-- The count of one-time prekeys, and what a refused upload has written:
-- crates/api/src/handlers/keys/handlers.rs.
use mesty_api.Common.{
  ℕ, ◌-◌, ◌≤◌, ◌≡◌, refl, inl, inr, Bool, true, false, String, List, [], ◌∷◌, ◌++◌, ◌&&◌, ◌==◌, any,
  count, find?, is_some, length, if◌then◌else◌, arith, Bool-cases, update_where, unwrap_or,
}
use mathlib.Core.Option
use mesty_api.Keys.Store.{
  SignedPrekey, OneTimePrekey, UserKeys, PrekeyRow, Block, Store, is_keys_of, is_free,
  insert_prekeys, set_count, get_prekey_count, consume, decrement,
}
use mesty_api.Keys.Validation.{Crypto}
use mesty_api.Keys.Handlers.{upload_one_time}
use mesty_api.Keys.Requests.{
  Request, post_keys, post_prekeys, get_bundle, get_print, get_count, change_blocks, serve,
  serve_all,
}
use mesty_api.Keys.Effects.{
  accepts, accepts_prekeys, refused, with_keys, with_prekeys, handed, upload_one_time_after,
  upload_keys_after, upload_prekeys_after, get_key_bundle_after, get_fingerprint_after,
  get_my_prekey_count_after,
}

-- The count of a user, 0 for one with no keys.
abbrev count_in : ℕ → List UserKeys → ℕ
count_in u ks = unwrap_or (Option.map (λ k. k.prekey_count) (find? (is_keys_of u) ks)) 0

-- No user's count is above the number of prekeys that are free.
abbrev pub IsCounted : Store → Type 0
IsCounted s = (u : ℕ) → get_prekey_count u s ≤ count (is_free u) s.one_time_prekeys

module _ (u : ℕ) where
  count_in-set_count :
      (v n : ℕ) (ks : List UserKeys)
      → count_in u (set_count v n ks)
        ≡ (if v == u && any (is_keys_of u) ks then n else count_in u ks)
  count_in-set_count v n [] = ground arith
  count_in-set_count v n (k ∷ ks) = ground (arith, count_in-set_count v n ks)

  count_in-decrement :
      (v : ℕ) (ks : List UserKeys)
      → count_in u (decrement v ks) ≡ (if v == u then count_in u ks - 1 else count_in u ks)
  count_in-decrement v [] = ground arith
  count_in-decrement v (k ∷ ks) = ground (arith, count_in-decrement v ks)

  abbrev set_keys : String → SignedPrekey → UserKeys → UserKeys
  set_keys identity spk k = record k { identity_key = identity; signed_prekey = spk }

  count_in-set_keys :
      (v : ℕ) (identity : String) (spk : SignedPrekey) (ks : List UserKeys)
      → count_in u (update_where (is_keys_of v) (set_keys identity spk) ks) ≡ count_in u ks
  count_in-set_keys v identity spk [] = refl
  count_in-set_keys v identity spk (k ∷ ks) = ground (arith, count_in-set_keys v identity spk ks)

  -- new keys keep the count, or start it at 0
  count_in-with_keys :
      (v : ℕ) (identity : String) (spk : SignedPrekey) (s : Store)
      → count_in u (with_keys v identity spk s).user_keys ≤ count_in u s.user_keys
  count_in-with_keys v identity spk s = ground (arith, count_in-set_keys v identity spk s.user_keys)

  count-snoc :
      (rows : List PrekeyRow) (row : PrekeyRow)
      → count (is_free u) rows ≤ count (is_free u) (rows ++ (row ∷ []))
  count-snoc [] row = ground arith
  count-snoc (p ∷ rows) row = ground (arith, count-snoc rows row)

  count-insert_prekeys :
      (v : ℕ) (ps : List OneTimePrekey) (rows : List PrekeyRow)
      → count (is_free u) rows ≤ count (is_free u) (insert_prekeys v ps rows)
  unfolding insert_prekeys
  count-insert_prekeys v [] rows = omega arith
  count-insert_prekeys v (p ∷ ps) rows =
      let row : PrekeyRow = record {
        user_id = v;
        key_id = p.id;
        public_key = p.key;
        is_consumed = false;
      } in
      ground (
        arith,
        count-insert_prekeys v ps rows,
        count-insert_prekeys v ps (rows ++ (row ∷ [])),
        count-snoc rows row,
      )

  count-consume :
      (v : ℕ) (rows : List PrekeyRow)
      → count (is_free u) (consume v rows).1
        ≡ (if v == u then count (is_free u) rows - 1 else count (is_free u) rows)
  unfolding consume
  count-consume v [] = ground arith
  count-consume v (p ∷ rows) =
      let rest = count-consume v rows in
      elim (Bool-cases (is_free v p)) [
        | inl free ↦
            rw free
              (elim (Bool-cases (v == u)) [ inl here ↦ ground arith | inr other ↦ ground arith ])
        | inr busy ↦
            rw busy
              (elim (Bool-cases (v == u)) [ inl here ↦ ground arith | inr other ↦ ground arith ])
      ]

none-free :
    (u : ℕ) (rows : List PrekeyRow)
    → is_some (consume u rows).0 ≡ false
    → count (is_free u) rows ≡ 0
unfolding consume
none-free u [] e = refl
none-free u (p ∷ rows) e = ground (arith, none-free u rows)

handed-IsCounted : (v : ℕ) (s : Store) → IsCounted s → IsCounted (handed v s)
handed-IsCounted v s h u = ground (
  arith,
  h u,
  count_in-decrement u v s.user_keys,
  count-consume u v s.one_time_prekeys,
  none-free v s.one_time_prekeys,
)

with_prekeys-IsCounted :
    (v : ℕ) (ps : List OneTimePrekey) (s : Store) → IsCounted s → IsCounted (with_prekeys v ps s)
with_prekeys-IsCounted v ps s h u =
    let rows = insert_prekeys v ps s.one_time_prekeys in
    ground (
      arith,
      h u,
      count_in-set_count u v (count (is_free v) rows) s.user_keys,
      count-insert_prekeys u v ps s.one_time_prekeys,
    )

with_keys-IsCounted :
    (v : ℕ) (identity : String) (spk : SignedPrekey) (s : Store)
    → IsCounted s
    → IsCounted (with_keys v identity spk s)
with_keys-IsCounted v identity spk s h u =
    ground (arith, h u, count_in-with_keys u v identity spk s)

unblocked : (bs : List Block) (s : Store) → IsCounted s → IsCounted (record s { user_blocks = bs })
unblocked bs s h = h

module _ (c : Crypto) where
  either : (b : Bool) (s t : Store) → IsCounted s → IsCounted t → IsCounted (if b then s else t)
  either true s t h h' = h
  either false s t h h' = h'

  upload_one_time-IsCounted :
      (v : ℕ) (ps : List OneTimePrekey) (s : Store)
      → IsCounted s
      → IsCounted (upload_one_time c v ps s).1
  upload_one_time-IsCounted v ps s h = rw (upload_one_time_after c v ps s) (
      either (length ps == 0) _ _ h
        (either (accepts_prekeys c ps) _ _ (with_prekeys-IsCounted v ps s h) h))

  serve-IsCounted : (r : Request) (s : Store) → IsCounted s → IsCounted (serve c r s)
  unfolding serve
  serve-IsCounted (post_keys auth identity spk ps) s h =
      rw (upload_keys_after c auth identity spk ps s) (
        either (accepts c identity spk) _ _
          (upload_one_time-IsCounted auth ps (with_keys auth identity spk s)
            (with_keys-IsCounted auth identity spk s h))
          h)
  serve-IsCounted (post_prekeys auth ps) s h =
      rw (upload_prekeys_after auth ps s)
        (either (length ps == 0) _ _ h (with_prekeys-IsCounted auth ps s h))
  serve-IsCounted (get_bundle auth target) s h =
      rw (get_key_bundle_after auth target s)
        (either (refused auth target s) _ _ h (handed-IsCounted target s h))
  serve-IsCounted (get_print auth target) s h = rw (get_fingerprint_after c auth target s) h
  serve-IsCounted (get_count auth) s h = rw (get_my_prekey_count_after auth s) h
  serve-IsCounted (change_blocks bs) s h = unblocked bs s h

  -- If no user's count of one-time prekeys is above the number of the user's free ones, it is not after any
  -- requests of any users either.
  pub serve_all-IsCounted :
      (rs : List Request) (s : Store) → IsCounted s → IsCounted (serve_all c rs s)
  unfolding serve_all
  serve_all-IsCounted [] s h = h
  serve_all-IsCounted (r ∷ rs) s h = serve_all-IsCounted rs (serve c r s) (serve-IsCounted r s h)
