-- ===== src/Auth/Tokens.antt =====
-- `JwtService` (crates/api/src/services/jwt.rs).
use mesty_api.Common.{ℕ, ◌+◌, String, Option, none, some, ltb, if◌then◌else◌, str_eq}
use mesty_api.DomainError.{unauthorized, Result, pure, gets, modify, ok_or, ◌>>=◌, ◌>>◌}
use mesty_api.Auth.Store.{Store, Env, AccessClaims, RefreshSession, Timed, get}

-- `TEMP_SESSION_ID`
abbrev pub temp_session_id : String
temp_session_id = "temp"

module _ (env : Env) where
  unfoldable pub generate_access_token : ℕ → ℕ → ℕ → String
  generate_access_token now user_id session_id = env.encode (record {
    sub = env.uuid_text user_id;
    sid = env.uuid_text session_id;
    exp = now + env.access_ttl;
    iat = now;
  })

  unfoldable pub generate_temp_token : ℕ → ℕ → String
  generate_temp_token now user_id =
      env.encode
        (record { sub = env.uuid_text user_id; sid = temp_session_id; exp = now + 300; iat = now })

  unfoldable pub validate_access_token : ℕ → String → Option AccessClaims
  validate_access_token now token = elim (env.decode token) [
    | none ↦ none
    | some claims ↦ if ltb claims.exp now then none else some claims
  ]

  -- `SET refresh:<key> … EX` and `DEL refresh:<key>`
  abbrev pub set_refresh : String → Option (Timed RefreshSession) → Store → Store
  set_refresh key v s = record s { refresh = λ k. if str_eq key k then v else s.refresh k }

  unfoldable pub store_refresh_token : ℕ → String → RefreshSession → Store → Store
  store_refresh_token now token session =
      set_refresh (env.sha256 token)
        (some (record { value = session; expires_at = now + env.refresh_ttl }))

  unfoldable pub validate_refresh_token : ℕ → String → Store → Result RefreshSession × Store
  validate_refresh_token now token = do
    session ←
        ok_or (← gets (λ s. get now (s.refresh (env.sha256 token))))
          (unauthorized "Invalid refresh token")
    modify (set_refresh (env.sha256 token) none)
    pure session
