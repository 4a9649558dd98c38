-- ===== src/Auth/Handlers.antt =====
-- Issuing, rotating and revoking: issue_tokens, refresh, list_sessions, delete_session and logout of
-- crates/api/src/handlers/auth/mod.rs. `id` and `token` are the new uuids that a handler draws.
use mesty_api.Common.{ℕ, ◌+◌, Bool, String, Option, none, List, map, ◌==◌, if◌then◌else◌}
use mesty_api.DomainError.{unauthorized, Result, pure, gets, modify, ok_or, ◌>>=◌, ◌>>◌}
use mesty_api.Auth.Store
use mesty_api.Auth.Store.{
  User, DeviceContext, Session, RefreshSession, Timed, Store, Env, find_by_id, upsert_session,
}
use mesty_api.Auth.Tokens.{
  generate_access_token, store_refresh_token, validate_refresh_token, set_refresh,
}

pub record AuthResponse : Type 0 where
  pub access_token : String
  pub refresh_token : String
  pub expires_in : ℕ
  pub user_id : String
  pub phone : String
  pub username : Option String

pub record SessionResponse : Type 0 where
  pub id : String
  pub device_name : String
  pub device_type : String
  pub last_active_at : ℕ
  pub is_current : Bool

pub data Body : Type 0 where
  tokens : AuthResponse → Body
  sessions : List SessionResponse → Body
  message : String → Body

pub record Response : Type 0 where
  pub code : ℕ
  pub body : Body

abbrev pub respond : ℕ → Body → Store → Result Response × Store
respond code body = pure (record { code = code; body = body })

unfoldable pub delete_session : ℕ → ℕ → Store → Result Response × Store
delete_session auth_user session_id = do
  deleted ← Store.delete_session auth_user session_id
  if deleted
      then respond 200 (message "Sesion eliminada")
      else respond 404 (message "Sesion no encontrada")

module _ (env : Env) where
  unfoldable pub issue_tokens :
      ℕ → ℕ → String → User → DeviceContext → Store → Result AuthResponse × Store
  issue_tokens now id token user device = do
    session_id ← upsert_session id now user.id device (now + env.refresh_ttl)
    modify (
        store_refresh_token env now token
          (record { user_id = user.id; session_id = session_id; device = device }))
    pure (record {
      access_token = generate_access_token env now user.id session_id;
      refresh_token = token;
      expires_in = env.access_ttl;
      user_id = env.uuid_text user.id;
      phone = user.phone;
      username = user.username;
    })

  unfoldable pub refresh : ℕ → ℕ → String → String → Store → Result Response × Store
  refresh now id token refresh_token = do
    refresh_session ← validate_refresh_token env now refresh_token
    user ←
        ok_or (← gets (find_by_id refresh_session.user_id)) (unauthorized "Usuario no encontrado")
    auth_response ← issue_tokens now id token user refresh_session.device
    respond 200 (tokens auth_response)

  abbrev pub session_response : ℕ → Session → SessionResponse
  session_response current r = record {
    id = env.uuid_text r.id;
    device_name = r.device.device_name;
    device_type = r.device.device_type;
    last_active_at = r.last_active_at;
    is_current = r.id == current;
  }

  unfoldable pub list_sessions : ℕ → ℕ → Store → Result Response × Store
  list_sessions auth_user auth_session = do
    rows ← gets (Store.list_sessions auth_user)
    respond 200 (sessions (map (session_response auth_session) rows))

  unfoldable pub logout : ℕ → ℕ → Store → Result Response × Store
  logout auth_user auth_session = do
    Store.delete_session auth_user auth_session
    modify (λ s. record s { cached = λ k. if auth_session == k then none else s.cached k })
    modify (set_refresh env (env.uuid_text auth_session) none)
    respond 200 (message "Logout exitoso")
