-- ===== src/Auth/Middleware.antt =====
-- `auth_middleware` and `validate_session` (crates/api/src/middleware/auth.rs): a request goes on with
-- the authenticated user, or is answered with 401 and a message.
use mesty_api.Common.{
  ℕ, ◌+◌, Bool, true, false, String, Option, none, some, is_some, ◌==◌, if◌then◌else◌, not, str_eq,
}
use Prim.Native.String.{len, slice}
use text.Mathlib.Text.{starts_with}
use mesty_api.Auth.Store.{Store, Env, AccessClaims, get, is_session_valid}
use mesty_api.Auth.Tokens.{temp_session_id, validate_access_token}

pub data Verdict : Type 0 where
  granted : (user_id session_id : ℕ) → Verdict
  refused : String → Verdict

module _ (env : Env) where
  abbrev pub cache : ℕ → ℕ → Store → Store
  cache now session_id s = record s {
    cached = λ k.
        if session_id == k
        then some (record { value = "active"; expires_at = now + env.access_ttl })
        else s.cached k;
  }

  unfoldable pub validate_session : ℕ → ℕ → ℕ → Store → Bool × Store
  validate_session now user_id session_id s =
      if is_some (get now (s.cached session_id))
      then (true, s)
      else if is_session_valid now user_id session_id s
      then (true, cache now session_id s)
      else (false, s)

  -- after the claims are validated
  unfoldable pub admit : ℕ → AccessClaims → Store → Verdict × Store
  admit now claims s = elim (env.parse_uuid claims.sub) [
    | none ↦ (refused "Malformed token subject", s)
    | some user_id ↦
        if str_eq claims.sid temp_session_id
        then (refused "Temporary 2FA token cannot be used for this endpoint", s)
        else elim (env.parse_uuid claims.sid) [
          | none ↦ (refused "Malformed token session", s)
          | some session_id ↦
              let (valid, t) = validate_session now user_id session_id s in
              (
                if valid then granted user_id session_id else refused "Session revoked or expired",
                t,
              )
        ]
  ]

  unfoldable pub auth_middleware : ℕ → Option String → Store → Verdict × Store
  auth_middleware now none s = (refused "Missing bearer token", s)
  auth_middleware now (some auth) s =
      if not (starts_with auth "Bearer ")
      then (refused "Invalid authorization scheme", s)
      else elim (validate_access_token env now (slice auth 7 (len auth))) [
        | none ↦ (refused "Invalid or expired token", s)
        | some claims ↦ admit now claims s
      ]
