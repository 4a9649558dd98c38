-- ===== src/Auth/Access.antt =====
-- Who passes the middleware of crates/api/src/middleware/auth.rs.
use mesty_api.Common.{
  ℕ, ◌≡◌, ◌↔◌, refl, sym, inl, inr, true, false, String, Option, none, some, ◌||◌, ltb, is_some,
  not, if◌then◌else◌, str_eq, arith, Option-cases,
}
use Prim.Native.String.{len, slice}
use text.Mathlib.Text.{starts_with}
use mesty_api.Auth.Store.{Store, Env, AccessClaims, get, is_session_valid}
use mesty_api.Auth.Tokens.{temp_session_id, validate_access_token}
use mesty_api.Auth.Middleware.{granted, refused, validate_session, admit, auth_middleware}

module _ (env : Env) where
  -- What lets a request pass as a session of a user: a bearer token that decodes to claims which have
  -- not expired and are not temporary, for a session that is cached or is in the table and has not expired.
  pub record Passes (now : ℕ) (header : Option String) (s : Store) (u sid : ℕ) : Type 0 where
    pub token : String
    pub claims : AccessClaims
    pub bearer : header ≡ some token
    pub scheme : starts_with token "Bearer " ≡ true
    pub decoded : env.decode (slice token 7 (len token)) ≡ some claims
    pub in_time : ltb claims.exp now ≡ false
    pub permanent : str_eq claims.sid temp_session_id ≡ false
    pub user : env.parse_uuid claims.sub ≡ some u
    pub session : env.parse_uuid claims.sid ≡ some sid
    pub live : (is_some (get now (s.cached sid)) || is_session_valid now u sid s) ≡ true

  validate_lem :
      (now u sid : ℕ) (s : Store)
      → (validate_session env now u sid s).0
        ≡ (is_some (get now (s.cached sid)) || is_session_valid now u sid s)
  unfolding validate_session
  validate_lem now u sid s = ground arith

  middleware_lem :
      (now : ℕ) (token : String) (s : Store)
      → (auth_middleware env now (some token) s).0 ≡ (
          if not (starts_with token "Bearer ")
          then refused "Invalid authorization scheme"
          else elim (env.decode (slice token 7 (len token))) [
            | none ↦ refused "Invalid or expired token"
            | some claims ↦
                if ltb claims.exp now
                then refused "Invalid or expired token"
                else (admit env now claims s).0
          ])
  unfolding auth_middleware validate_access_token
  middleware_lem now token s = ground arith

  admit_lem :
      (now : ℕ) (claims : AccessClaims) (s : Store)
      → (admit env now claims s).0 ≡ (elim (env.parse_uuid claims.sub) [
        | none ↦ refused "Malformed token subject"
        | some u ↦
            if str_eq claims.sid temp_session_id
            then refused "Temporary 2FA token cannot be used for this endpoint"
            else elim (env.parse_uuid claims.sid) [
              | none ↦ refused "Malformed token session"
              | some sid ↦
                  if is_some (get now (s.cached sid)) || is_session_valid now u sid s
                  then granted u sid
                  else refused "Session revoked or expired"
            ]
      ])
  unfolding admit
  admit_lem now claims s = elim (Option-cases (env.parse_uuid claims.sub)) [
    | inl e ↦ ground arith
    | inr (u, e) ↦ elim (Option-cases (env.parse_uuid claims.sid)) [
      | inl e' ↦ ground arith
      | inr (sid, e') ↦ ground (arith, validate_lem now u sid s)
    ]
  ]

  admitted :
      (now : ℕ) (token : String) (claims : AccessClaims) (s : Store) (u sid : ℕ)
      → starts_with token "Bearer " ≡ true
      → env.decode (slice token 7 (len token)) ≡ some claims
      → (auth_middleware env now (some token) s).0 ≡ granted u sid
      → Passes now (some token) s u sid
  admitted now token claims s u sid scheme decoded e =
      let M = middleware_lem now token s in
      let A = admit_lem now claims s in
      elim (Option-cases (env.parse_uuid claims.sub)) [
        | inl none_u ↦ ground (arith, M, A)
        | inr (u', some_u) ↦ elim (Option-cases (env.parse_uuid claims.sid)) [
          | inl none_s ↦ ground (arith, M, A)
          | inr (sid', some_s) ↦
              let live' : (is_some (get now (s.cached sid')) || is_session_valid now u' sid' s)
                  ≡ true =
                ground (arith, M, A) in
              let same_u : u' ≡ u = ground (arith, M, A) in
              let same_sid : sid' ≡ sid = ground (arith, M, A) in
              record {
                token = token;
                claims = claims;
                bearer = refl;
                scheme = scheme;
                decoded = decoded;
                in_time = ground (arith, M, A);
                permanent = ground (arith, M, A);
                user = ground (arith, M, A);
                session = ground (arith, M, A);
                live = rw (sym same_u, sym same_sid) live';
              }
        ]
      ]

  -- a request that passes
  pub passed :
      (now : ℕ) (header : Option String) (s : Store) (u sid : ℕ)
      → Passes now header s u sid
      → (auth_middleware env now header s).0 ≡ granted u sid
  passed now header s u sid h = rw h.bearer (
      ground (
        arith,
        middleware_lem now h.token s,
        admit_lem now h.claims s,
        h.scheme,
        h.decoded,
        h.in_time,
        h.permanent,
        h.user,
        h.session,
        h.live,
      ))

  pub granted-Passes :
      (now : ℕ) (header : Option String) (s : Store) (u sid : ℕ)
      → (auth_middleware env now header s).0 ≡ granted u sid
      → Passes now header s u sid
  unfolding auth_middleware
  granted-Passes now none s u sid e = absurd (ground arith)
  granted-Passes now (some token) s u sid e =
      let M = middleware_lem now token s in
      elim (Option-cases (env.decode (slice token 7 (len token)))) [
        | inl bad ↦ absurd (ground (arith, M))
        | inr (claims, decoded) ↦ admitted now token claims s u sid (ground (arith, M)) decoded e
      ]

  -- The middleware lets a request pass as a session of a user exactly if it carries a bearer token with
  -- claims that have not expired and are not temporary, for a session that is cached or valid.
  pub auth_middleware_iff :
      (now : ℕ) (header : Option String) (s : Store) (u sid : ℕ)
      → ((auth_middleware env now header s).0 ≡ granted u sid) ↔ Passes now header s u sid
  auth_middleware_iff now header s u sid =
      (granted-Passes now header s u sid, passed now header s u sid)
