-- ===== src/Auth/Devices.antt =====
-- One session for each device of a user: upsert_session of
-- crates/infrastructure/src/repositories/user.rs, under issue_tokens.
use mesty_api.Common.{
  ℕ, ◌≤◌, ◌≡◌, refl, inl, inr, true, false, String, List, [], ◌∷◌, ◌==◌, ◌&&◌, ltb, not, any, count,
  str_eq, eq_iff, ap, sym, ◌∙◌, arith, Bool-cases, update_where,
}
use mesty_api.DomainError.{ok}
use mesty_api.Auth.Store.{
  DeviceContext, Session, Store, is_device, is_session, is_session_valid, new_session,
  upsert_session,
}

-- what `upsert_session` sets on a row of the device
abbrev renewed : ℕ → ℕ → DeviceContext → ℕ → Session → Session
renewed id now device ends r = record r {
  id = id;
  device = device;
  expires_at = ends;
  last_active_at = now;
}

-- `is_device` reads the same on a text that is equal
is_device_text :
    (u v : ℕ) (d e : String) (r : Session)
    → is_device u d r ≡ true
    → is_device v e r ≡ (r.user_id == v && str_eq d e)
is_device_text u v d e r here =
    let same : r.device.device_id ≡ d = (eq_iff r.device.device_id d).0 (ground arith) in
    ap (λ t. r.user_id == v && str_eq t e) same

none-counted :
    (u : ℕ) (d : String) (rows : List Session)
    → any (is_device u d) rows ≡ false
    → count (is_device u d) rows ≡ 0
none-counted u d [] e = refl
none-counted u d (r ∷ rows) e = ground (arith, none-counted u d rows)

-- No device of a user has two sessions.
abbrev pub IsSingle : Store → Type 0
IsSingle s = (v : ℕ) (e : String) → count (is_device v e) s.user_sessions ≤ 1

module _ (id now u ends : ℕ) (device : DeviceContext) where
  abbrev d : String
  d = device.device_id

  count-renewed :
      (v : ℕ) (e : String) (rows : List Session)
      → count (is_device v e) (update_where (is_device u d) (renewed id now device ends) rows)
        ≡ count (is_device v e) rows
  count-renewed v e [] = refl
  count-renewed v e (r ∷ rows) = elim (Bool-cases (is_device u d r)) [
    | inl here ↦ ground (arith, is_device_text u v d e r here, count-renewed v e rows)
    | inr other ↦ ground (arith, count-renewed v e rows)
  ]

  -- a new row is the only one of its device
  count-new :
      (v : ℕ) (e : String) (rows : List Session)
      → any (is_device u d) rows ≡ false
      → count (is_device v e) rows ≤ 1
      → count (is_device v e) (new_session id now u device ends ∷ rows) ≤ 1
  count-new v e rows absent single = elim (Bool-cases (u == v && str_eq d e)) [
    | inl same ↦
        let user : u ≡ v = ground arith in
        let text : d ≡ e = (eq_iff d e).0 (ground arith) in
        let none_there : any (is_device v e) rows ≡ false =
          ap (λ w. any (is_device w e) rows) (sym user)
          ∙ ap (λ x. any (is_device u x) rows) (sym text)
          ∙ absent in
        ground (arith, none-counted v e rows none_there)
    | inr other ↦ ground arith
  ]

  -- the sessions of the device that a renewal leaves under another id
  renewed_id :
      (old at : ℕ) (rows : List Session)
      → (id == old) ≡ false
      → any (λ r. is_session u old r && not (is_device u d r)) rows ≡ false
      → any
          (λ r. is_session u old r && ltb at r.expires_at)
          (update_where (is_device u d) (renewed id now device ends) rows)
        ≡ false
  renewed_id old at [] other only = refl
  renewed_id old at (r ∷ rows) other only = ground (arith, renewed_id old at rows)

  absent_id :
      (old at : ℕ) (rows : List Session)
      → any (is_device u d) rows ≡ false
      → any (λ r. is_session u old r && not (is_device u d r)) rows ≡ false
      → any (λ r. is_session u old r && ltb at r.expires_at) rows ≡ false
  absent_id old at [] absent only = refl
  absent_id old at (r ∷ rows) absent only = ground (arith, absent_id old at rows)

  -- If no device of a user has two sessions, none has after `upsert_session`.
  pub upsert_session-IsSingle :
      (s : Store) → IsSingle s → IsSingle (upsert_session id now u device ends s).1
  unfolding upsert_session
  upsert_session-IsSingle s single = elim (Bool-cases (any (is_device u d) s.user_sessions)) [
    | inl there ↦ λ v e. ground (arith, single v e, count-renewed v e s.user_sessions)
    | inr absent ↦ λ v e. ground (arith, single v e, count-new v e s.user_sessions absent)
  ]

  -- When `upsert_session` has stored a session of a device, an older session of the user on this device is
  -- not valid at any time, if its id is another one and is on no other device of the user.
  pub upsert_session-replaces :
      (old at : ℕ) (s : Store)
      → (id == old) ≡ false
      → any (λ r. is_session u old r && not (is_device u d r)) s.user_sessions ≡ false
      → (upsert_session id now u device ends s).0 ≡ ok id
      → is_session_valid at u old (upsert_session id now u device ends s).1 ≡ false
  unfolding upsert_session is_session_valid
  upsert_session-replaces old at s other only stored =
      elim (Bool-cases (any (is_device u d) s.user_sessions)) [
        | inl there ↦ ground (arith, renewed_id old at s.user_sessions)
        | inr absent ↦ ground (arith, absent_id old at s.user_sessions)
      ]
