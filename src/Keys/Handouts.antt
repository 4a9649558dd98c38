-- ===== src/Keys/Handouts.antt =====
-- A one-time prekey is handed out at most once: crates/api/src/handlers/keys/handlers.rs and
-- get_user_public_keys of migrations/011_stories_notifications_audit.sql.
use mesty_api.Common.{
  ℕ, ◌≤◌, ◌≡◌, ◌≢◌, refl, sym, ap, ◌∙◌, inl, inr, Bool, true, false, some, List, [], ◌∷◌, ◌++◌,
  ◌&&◌, ◌||◌, ◌==◌, not, any, count, find?, arith, Bool-cases, Option-cases, subst, find?-holds,
  find?-fails, ==_refl,
}
use mesty_api.Keys.Store.{
  ℤ, pos, negsuc, same, OneTimePrekey, PrekeyRow, Store, is_free, is_key, insert_prekeys, consume,
  prekey,
}
use mesty_api.Keys.Validation.{Crypto}
use mesty_api.Keys.Handlers.{get_key_bundle}
use mesty_api.Keys.Requests.{
  Request, post_keys, post_prekeys, get_bundle, get_print, get_count, change_blocks, serve,
  serve_all,
}
use mesty_api.Keys.Effects.{
  with_keys, upload_one_time_after, upload_keys_after, upload_prekeys_after, get_key_bundle_after,
  get_fingerprint_after, get_my_prekey_count_after, key_of, key_of-get_key_bundle,
}

same_refl : (a : ℤ) → same a a ≡ true
same_refl (pos a) = ==_refl a
same_refl (negsuc a) = ==_refl a

same_sound : (a b : ℤ) → same a b ≡ true → a ≡ b
same_sound (pos a) (pos b) e = ground arith
same_sound (negsuc a) (negsuc b) e = ground arith
same_sound (pos a) (negsuc b) e = ground arith
same_sound (negsuc a) (pos b) e = ground arith

any-snoc :
    {A : Type 0} (q : A → Bool) (xs : List A) (y : A) → any q (xs ++ (y ∷ [])) ≡ any q xs || q y
any-snoc q [] y = ground arith
any-snoc q (x ∷ xs) y = ground (arith, any-snoc q xs y)

-- a key that is still free
abbrev free_key : ℕ → ℤ → PrekeyRow → Bool
free_key u i p = is_key u i p && not p.is_consumed

-- the key is there, and consumed
abbrev pub IsTaken : ℕ → ℤ → List PrekeyRow → Type 0
IsTaken u i rows = (any (is_key u i) rows ≡ true) × (any (free_key u i) rows ≡ false)

module _ (u : ℕ) (i : ℤ) where
  other_key :
      (v : ℕ) (j : ℤ) (rows : List PrekeyRow)
      → any (is_key u i) rows ≡ true
      → any (is_key v j) rows ≡ false
      → (v == u && same j i) ≡ false
  other_key v j rows there new = elim (Bool-cases (v == u && same j i)) [
    | inl shared ↦
        let user : v ≡ u = ground arith in
        let key : j ≡ i = same_sound j i (ground arith) in
        let both : any (is_key v j) rows ≡ any (is_key u i) rows =
          ap (λ w. any (is_key w j) rows) user ∙ ap (λ k. any (is_key u k) rows) key in
        ground arith
    | inr other ↦ other
  ]

  insert_prekeys-IsTaken :
      (v : ℕ) (ps : List OneTimePrekey) (rows : List PrekeyRow)
      → IsTaken u i rows
      → IsTaken u i (insert_prekeys v ps rows)
  unfolding insert_prekeys
  insert_prekeys-IsTaken v [] rows h = h
  insert_prekeys-IsTaken v (p ∷ ps) rows (there, gone) =
      elim (Bool-cases (any (is_key v p.id) rows)) [
        | inl old ↦ rw old (insert_prekeys-IsTaken v ps rows (there, gone))
        | inr new ↦
            let row : PrekeyRow = record {
              user_id = v;
              key_id = p.id;
              public_key = p.key;
              is_consumed = false;
            } in
            let other : is_key u i row ≡ false = other_key v p.id rows there new in
            rw new (
              insert_prekeys-IsTaken v ps (rows ++ (row ∷ [])) (
                ground (arith, any-snoc (is_key u i) rows row),
                ground (arith, any-snoc (free_key u i) rows row, other),
              ))
      ]

  consume-any :
      (v : ℕ) (rows : List PrekeyRow) → any (is_key u i) (consume v rows).1 ≡ any (is_key u i) rows
  unfolding consume
  consume-any v [] = refl
  consume-any v (p ∷ rows) = ground (arith, consume-any v rows)

  consume-free :
      (v : ℕ) (rows : List PrekeyRow)
      → any (free_key u i) rows ≡ false
      → any (free_key u i) (consume v rows).1 ≡ false
  unfolding consume
  consume-free v [] e = refl
  consume-free v (p ∷ rows) e = ground (arith, consume-free v rows)

  none-counted :
      (rows : List PrekeyRow) → count (is_key u i) rows ≡ 0 → any (is_key u i) rows ≡ false
  none-counted [] e = refl
  none-counted (p ∷ rows) e = ground (arith, none-counted rows)

  free-key :
      (rows : List PrekeyRow) → any (is_key u i) rows ≡ false → any (free_key u i) rows ≡ false
  free-key [] e = refl
  free-key (p ∷ rows) e = ground (arith, free-key rows)

consume-find? : (u : ℕ) (rows : List PrekeyRow) → (consume u rows).0 ≡ find? (is_free u) rows
unfolding consume
consume-find? u [] = refl
consume-find? u (p ∷ rows) = ground (arith, consume-find? u rows)

IsTaken-head :
    (u : ℕ) (q : PrekeyRow) (rows : List PrekeyRow)
    → is_free u q ≡ true
    → count (is_key u q.key_id) (q ∷ rows) ≤ 1
    → IsTaken u q.key_id (record q { is_consumed = true } ∷ rows)
IsTaken-head u q rows free single =
    let here = same_refl q.key_id in
    let absent = none-counted u q.key_id rows (ground arith) in
    (ground arith, ground (arith, free-key u q.key_id rows absent))

-- the key that is consumed is taken afterwards, if no other row has it
consume-IsTaken :
    (u : ℕ) (rows : List PrekeyRow) (p : PrekeyRow)
    → (consume u rows).0 ≡ some p
    → count (is_key u p.key_id) rows ≤ 1
    → IsTaken u p.key_id (consume u rows).1
unfolding consume
consume-IsTaken u [] p e single = (ground arith, ground arith)
consume-IsTaken u (q ∷ rows) p e single = elim (Bool-cases (is_free u q)) [
  | inl free ↦
      let first : q ≡ p = ground arith in
      rw free (
        subst
          (λ x.
            count (is_key u x.key_id) (q ∷ rows) ≤ 1
            → IsTaken u x.key_id (record q { is_consumed = true } ∷ rows))
          first (IsTaken-head u q rows free) single)
  | inr other ↦
      let rest = consume-IsTaken u rows p (ground arith) (ground arith) in
      (ground (arith, rest), ground (arith, rest))
]

-- the key of a user's bundle is not one that is taken
key_of-IsTaken :
    (auth u : ℕ) (i : ℤ) (s : Store) (k : OneTimePrekey)
    → IsTaken u i s.one_time_prekeys
    → key_of (get_key_bundle auth u s).0 ≡ some k
    → k.id ≢ i
key_of-IsTaken auth u i s k (there, gone) e same_id =
    elim (Option-cases (find? (is_free u) s.one_time_prekeys)) [
      | inl absent ↦
          ground (arith, key_of-get_key_bundle auth u s, consume-find? u s.one_time_prekeys)
      | inr (p, found) ↦
          let shown : k ≡ prekey p =
            ground (arith, key_of-get_key_bundle auth u s, consume-find? u s.one_time_prekeys) in
          let id : p.key_id ≡ i = sym (ap (λ x. x.id) shown) ∙ same_id in
          let is_it : same p.key_id i ≡ true = rw id (same_refl i) in
          ground (
            arith,
            find?-holds (is_free u) s.one_time_prekeys p found,
            find?-fails (is_free u) (free_key u i) s.one_time_prekeys p found gone,
          )
    ]

-- a bundle takes the key that it hands out
first_IsTaken :
    (u a : ℕ) (k : OneTimePrekey) (s : Store)
    → ((i : ℤ) → count (is_key u i) s.one_time_prekeys ≤ 1)
    → key_of (get_key_bundle a u s).0 ≡ some k
    → IsTaken u k.id (get_key_bundle a u s).1.one_time_prekeys
first_IsTaken u a k s unique first = elim (Option-cases (consume u s.one_time_prekeys).0) [
  | inl none_left ↦
      (ground (arith, key_of-get_key_bundle a u s), ground (arith, key_of-get_key_bundle a u s))
  | inr (p, e) ↦
      let shown : k ≡ prekey p = ground (arith, key_of-get_key_bundle a u s) in
      let after : (get_key_bundle a u s).1.one_time_prekeys ≡ (consume u s.one_time_prekeys).1 =
        ground (arith, key_of-get_key_bundle a u s, get_key_bundle_after a u s) in
      rw (shown, after) (consume-IsTaken u s.one_time_prekeys p e (unique p.key_id))
]

module _ (c : Crypto) (u : ℕ) (i : ℤ) where
  abbrev Taken : Store → Type 0
  Taken s = IsTaken u i s.one_time_prekeys

  serve-IsTaken : (r : Request) (s : Store) → Taken s → Taken (serve c r s)
  unfolding serve
  serve-IsTaken (post_keys auth identity spk ps) s h =
      let insert = insert_prekeys-IsTaken u i auth ps s.one_time_prekeys h in
      let after = upload_keys_after c auth identity spk ps s in
      let then_prekeys = upload_one_time_after c auth ps (with_keys auth identity spk s) in
      (ground (arith, after, then_prekeys, insert), ground (arith, after, then_prekeys, insert))
  serve-IsTaken (post_prekeys auth ps) s h =
      let insert = insert_prekeys-IsTaken u i auth ps s.one_time_prekeys h in
      let after = upload_prekeys_after auth ps s in
      (ground (arith, after, insert), ground (arith, after, insert))
  serve-IsTaken (get_bundle auth target) s h =
      let after = get_key_bundle_after auth target s in
      (
        ground (arith, after, consume-any u i target s.one_time_prekeys),
        ground (arith, after, consume-free u i target s.one_time_prekeys),
      )
  serve-IsTaken (get_print auth target) s h = rw (get_fingerprint_after c auth target s) h
  serve-IsTaken (get_count auth) s h = rw (get_my_prekey_count_after auth s) h
  serve-IsTaken (change_blocks bs) s h = h

  serve_all-IsTaken : (rs : List Request) (s : Store) → Taken s → Taken (serve_all c rs s)
  unfolding serve_all
  serve_all-IsTaken [] s h = h
  serve_all-IsTaken (r ∷ rs) s h = serve_all-IsTaken rs (serve c r s) (serve-IsTaken r s h)

-- A one-time prekey that a bundle of a user hands out is in no later bundle of this user, whatever
-- requests come in between, if each key id of the user is in at most one row before.
pub get_key_bundle-once :
    (c : Crypto) (u a b : ℕ) (k k' : OneTimePrekey) (rs : List Request) (s : Store)
    → ((i : ℤ) → count (is_key u i) s.one_time_prekeys ≤ 1)
    → key_of (get_key_bundle a u s).0 ≡ some k
    → key_of (get_key_bundle b u (serve_all c rs (get_key_bundle a u s).1)).0 ≡ some k'
    → k'.id ≢ k.id
get_key_bundle-once c u a b k k' rs s unique first later =
    let next = (get_key_bundle a u s).1 in
    key_of-IsTaken b u k.id (serve_all c rs next) k'
      (serve_all-IsTaken c u k.id rs next (first_IsTaken u a k s unique first)) later
