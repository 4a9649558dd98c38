-- ===== src/Auth/Rotation.antt =====
-- The refresh tokens that are used up: refresh of crates/api/src/handlers/auth/mod.rs and
-- validate_refresh_token of crates/api/src/services/jwt.rs.
pub mod Endpoints
pub mod Requests
pub mod Sequences
use mesty_api.Common.{
  ℕ, ◌≡◌, refl, false, String, Option, none, some, List, [], ◌∷◌, str_eq, str_eq_refl, arith, All,
}
use mesty_api.DomainError.{unauthorized, Result, ok, err}
use mesty_api.Auth.Store
use mesty_api.Auth.Store.{
  User, DeviceContext, Session, RefreshSession, Timed, Store, Env, get, find_by_id, upsert_session,
}
use mesty_api.Auth.Tokens.{store_refresh_token, validate_refresh_token}
use mesty_api.Auth.Handlers
use mesty_api.Auth.Handlers.{Response, AuthResponse, issue_tokens, refresh, logout}
use mesty_api.Auth.Middleware.{auth_middleware, admit, validate_session}

module _ (env : Env) where
  -- a key of a refresh token that is gone
  abbrev pub IsGone : String → Store → Type 0
  IsGone key s = s.refresh key ≡ none

  pub issue_tokens-IsGone :
      (now id : ℕ) (token key : String) (user : User) (device : DeviceContext) (s : Store)
      → str_eq (env.sha256 token) key ≡ false
      → IsGone key s
      → IsGone key (issue_tokens env now id token user device s).1
  unfolding issue_tokens store_refresh_token upsert_session
  issue_tokens-IsGone now id token key user device s other gone = ground arith

  pub validate-IsGone :
      (now : ℕ) (old key : String) (s : Store)
      → IsGone key s
      → IsGone key (validate_refresh_token env now old s).1
  unfolding validate_refresh_token
  validate-IsGone now old key s gone = ground arith

  refresh_after :
      (now id : ℕ) (token old : String) (s : Store)
      → (refresh env now id token old s).1 ≡ (
          let t = (validate_refresh_token env now old s).1 in
          elim (validate_refresh_token env now old s).0 [
            | err e ↦ t
            | ok r ↦ elim (find_by_id r.user_id t) [
              | none ↦ t
              | some user ↦ (issue_tokens env now id token user r.device t).1
            ]
          ])
  unfolding refresh
  refresh_after now id token old s = ground arith

  pub refresh-IsGone :
      (now id : ℕ) (token old key : String) (s : Store)
      → str_eq (env.sha256 token) key ≡ false
      → IsGone key (validate_refresh_token env now old s).1
      → IsGone key (refresh env now id token old s).1
  refresh-IsGone now id token old key s other gone =
      rw (refresh_after now id token old s) (go (validate_refresh_token env now old s).0)
    where
      t : Store
      t = (validate_refresh_token env now old s).1

      user_case :
          (r : RefreshSession) (o : Option User)
          → IsGone key
              (elim o [ none ↦ t | some user ↦ (issue_tokens env now id token user r.device t).1 ])
      user_case r none = gone
      user_case r (some user) = issue_tokens-IsGone now id token key user r.device t other gone

      go :
          (v : Result RefreshSession)
          → IsGone key (elim v [
            | err e ↦ t
            | ok r ↦ elim (find_by_id r.user_id t) [
              | none ↦ t
              | some user ↦ (issue_tokens env now id token user r.device t).1
            ]
          ])
      go (err e) = gone
      go (ok r) = user_case r (find_by_id r.user_id t)

  pub logout-IsGone :
      (u sid : ℕ) (key : String) (s : Store) → IsGone key s → IsGone key (logout env u sid s).1
  unfolding logout Store.delete_session
  logout-IsGone u sid key s gone = ground arith

  pub middleware_refresh :
      (now : ℕ) (header : Option String) (s : Store)
      → (auth_middleware env now header s).1.refresh ≡ s.refresh
  unfolding auth_middleware admit validate_session
  middleware_refresh now none s = refl
  middleware_refresh now (some h) s = ground arith

  pub delete_session_refresh :
      (u sid : ℕ) (s : Store) → (Handlers.delete_session u sid s).1.refresh ≡ s.refresh
  unfolding Handlers.delete_session Store.delete_session
  delete_session_refresh u sid s = ground arith

  -- a token whose key is gone is refused
  pub refused :
      (now id : ℕ) (token old : String) (s : Store)
      → IsGone (env.sha256 old) s
      → refresh env now id token old s ≡ (err (unauthorized "Invalid refresh token"), s)
  unfolding refresh validate_refresh_token
  refused now id token old s gone = ground arith

  -- a validation uses the key up
  pub validated-IsGone :
      (now : ℕ) (old : String) (s : Store) (r : RefreshSession)
      → (validate_refresh_token env now old s).0 ≡ ok r
      → IsGone (env.sha256 old) (validate_refresh_token env now old s).1
  unfolding validate_refresh_token
  validated-IsGone now old s r e = ground (arith, str_eq_refl (env.sha256 old))

  -- what a refresh that succeeds has validated
  pub refreshed :
      (now id : ℕ) (token old : String) (s : Store) (x : Response)
      → (refresh env now id token old s).0 ≡ ok x
      → (r : RefreshSession) × ((validate_refresh_token env now old s).0 ≡ ok r)
  unfolding refresh
  refreshed now id token old s x e = go (validate_refresh_token env now old s).0 refl
    where
      go :
          (v : Result RefreshSession)
          → (validate_refresh_token env now old s).0 ≡ v
          → (r : RefreshSession) × ((validate_refresh_token env now old s).0 ≡ ok r)
      go (ok r) v = (r, v)
      go (err f) v = ground arith
