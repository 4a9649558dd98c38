-- ===== src/Auth/Revocation.antt =====
-- What logout and delete_session of crates/api/src/handlers/auth/mod.rs revoke.
use mesty_api.Common.{
  ℕ, ◌≡◌, ◌≢◌, refl, inl, inr, true, false, String, Option, none, some, List, [], ◌∷◌, ◌||◌, ◌&&◌,
  ltb, is_some, any, str_eq, ==_refl, arith, Option-cases, delete_where,
}
use mesty_api.DomainError.{unauthorized, ok, err}
use mesty_api.Auth.Store
use mesty_api.Auth.Store.{
  User, DeviceContext, Session, RefreshSession, Timed, Store, Env, AccessClaims, get, find_by_id,
  is_session, is_session_valid, upsert_session,
}
use mesty_api.Auth.Tokens.{validate_refresh_token, set_refresh}
use mesty_api.Auth.Handlers
use mesty_api.Auth.Handlers.{Response, AuthResponse, tokens, issue_tokens, refresh, logout}
use mesty_api.Auth.Middleware.{granted, auth_middleware}
use mesty_api.Auth.Access.{Passes, passed, granted-Passes}

module _ (env : Env) where
  gone :
      (now u sid : ℕ) (rows : List Session)
      → any (λ r. is_session u sid r && ltb now r.expires_at) (delete_where (is_session u sid) rows)
        ≡ false
  gone now u sid [] = refl
  gone now u sid (r ∷ rows) = ground (arith, gone now u sid rows)

  logged_out :
      (now u sid : ℕ) (s : Store)
      → let t = (logout env u sid s).1 in
        (is_some (get now (t.cached sid)) || is_session_valid now u sid t) ≡ false
  unfolding logout Store.delete_session is_session_valid
  logged_out now u sid s = ground (arith, gone now u sid s.user_sessions, ==_refl sid)

  -- After logout the session is neither cached nor valid, at any time: no request passes as it.
  pub logout-refused :
      (now : ℕ) (header : Option String) (u sid : ℕ) (s : Store)
      → (auth_middleware env now header (logout env u sid s).1).0 ≢ granted u sid
  logout-refused now header u sid s e =
      let t = (logout env u sid s).1 in
      let h = granted-Passes env now header t u sid e in
      ground (arith, h.live, logged_out now u sid s)

  issue_tokens_answer :
      (now id : ℕ) (token : String) (user : User) (device : DeviceContext) (s t : Store)
      → s.users ≡ t.users
      → (issue_tokens env now id token user device s).0
        ≡ (issue_tokens env now id token user device t).0
  unfolding issue_tokens upsert_session
  issue_tokens_answer now id token user device s t same = ground arith

  refresh_answer :
      (now id : ℕ) (token old : String) (s : Store)
      → (refresh env now id token old s).0 ≡ (elim (get now (s.refresh (env.sha256 old))) [
        | none ↦ err (unauthorized "Invalid refresh token")
        | some r ↦ elim (find_by_id r.user_id s) [
          | none ↦ err (unauthorized "Usuario no encontrado")
          | some user ↦ elim (issue_tokens env now id token user r.device s).0 [
            | err e ↦ err e
            | ok a ↦ ok (record { code = 200; body = tokens a })
          ]
        ]
      ])
  unfolding refresh validate_refresh_token
  refresh_answer now id token old s = elim (Option-cases (get now (s.refresh (env.sha256 old)))) [
    | inl e ↦ ground arith
    | inr (r, e) ↦ elim (Option-cases (find_by_id r.user_id s)) [
      | inl e' ↦ ground arith
      | inr (user, e') ↦
          let t = set_refresh env (env.sha256 old) none s in
          ground (arith, issue_tokens_answer now id token user r.device t s refl)
    ]
  ]

  logout_same :
      (u sid : ℕ) (key : String) (s : Store)
      → str_eq (env.uuid_text sid) key ≡ false
      → let t = (logout env u sid s).1 in (t.users ≡ s.users) × (t.refresh key ≡ s.refresh key)
  unfolding logout Store.delete_session
  logout_same u sid key s other = (ground arith, ground arith)

  -- Logout leaves the refresh tokens of the session: a refresh with one answers what it did before, if the
  -- digest of the token is not the text of the session's id.
  pub refresh-logout :
      (now id u sid : ℕ) (token old : String) (s : Store)
      → str_eq (env.uuid_text sid) (env.sha256 old) ≡ false
      → (refresh env now id token old (logout env u sid s).1).0 ≡ (refresh env now id token old s).0
  refresh-logout now id u sid token old s other =
      let t = (logout env u sid s).1 in
      let (users, key) = logout_same u sid (env.sha256 old) s other in
      let before = refresh_answer now id token old s in
      let after = refresh_answer now id token old t in
      elim (Option-cases (get now (s.refresh (env.sha256 old)))) [
        | inl e ↦ ground (arith, before, after, key)
        | inr (r, e) ↦ elim (Option-cases (find_by_id r.user_id s)) [
          | inl e' ↦ ground (arith, before, after, key, users)
          | inr (user, e') ↦ ground (
            arith,
            before,
            after,
            key,
            users,
            issue_tokens_answer now id token user r.device t s users,
          )
        ]
      ]

  delete_session_cache :
      (auth sid : ℕ) (s : Store) → (Handlers.delete_session auth sid s).1.cached ≡ s.cached
  unfolding Handlers.delete_session Store.delete_session
  delete_session_cache auth sid s = ground arith

  -- A session that is revoked passes while it is cached: after delete_session a bearer token of the session
  -- is let through until the cached value expires.
  pub delete_session-cached :
      (now : ℕ) (header : Option String) (auth u sid : ℕ) (s : Store)
      → Passes env now header s u sid
      → is_some (get now (s.cached sid)) ≡ true
      → let t = (Handlers.delete_session auth sid s).1 in
        (auth_middleware env now header t).0 ≡ granted u sid
  delete_session-cached now header auth u sid s h cached =
      let t = (Handlers.delete_session auth sid s).1 in
      passed env now header t u sid (record {
        token = h.token;
        claims = h.claims;
        bearer = h.bearer;
        scheme = h.scheme;
        decoded = h.decoded;
        in_time = h.in_time;
        permanent = h.permanent;
        user = h.user;
        session = h.session;
        live = ground (arith, delete_session_cache auth sid s);
      })
