-- ===== src/Auth/Login.antt =====
-- The endpoints that register, log in and recover: crates/api/src/handlers/auth/mod.rs. They use the
-- tables and tokens of Store and the one-time codes of Otp. `otp_code` is the code that a handler
-- generates; `id`, `token` and `user_id` are new uuids. The texts of the errors of jsonwebtoken and uuid
-- are fixed ones.
use mesty_api.Common.{
  ℕ, false, String, Option, none, ◌∷◌, not, any, find?, is_none, is_some, if◌then◌else◌, str_eq,
  concat, unwrap_or, ◌&&◌,
}
use mesty_api.DomainError.{
  unauthorized, already_exists, Result, ok, gets, modify, throw_if, ok_or, ◌>>=◌, ◌>>◌,
}
use mesty_api.Otp
use mesty_api.Otp.{
  OtpVerifyResult, matched, invalid, exceeded, not_found as otp_not_found, Purpose, register, login,
  recover, two_fa_setup, two_fa_login, Redis, verify_otp, store_otp,
}
use mesty_api.Auth.Store.{User, DeviceContext, Store, Env, find_by_id}
use mesty_api.Auth.Tokens.{generate_temp_token, validate_access_token, temp_session_id}
use mesty_api.Auth.Phone.{new_phone}
use mesty_api.Auth.Handlers
use mesty_api.Auth.Handlers.{AuthResponse}

pub record World : Type 0 where
  pub auth : Store
  pub redis : Redis

pub data Body : Type 0 where
  tokens : AuthResponse → Body
  message : String → Body
  message_with : String → (remaining : ℕ) → Body
  two_fa_required : (temp_token : String) → Body
  recover_token : String → Body
  setup_code : (message code : String) → Body

pub record Response : Type 0 where
  pub code : ℕ
  pub body : Body

abbrev pub respond : ℕ → Body → World → Result Response × World
respond code body w = (ok (record { code = code; body = body }), w)

-- a call of the tables and tokens, and one of the codes
abbrev pub on_auth : {A : Type 0} → (Store → Result A × Store) → World → Result A × World
on_auth m w = let (r, s) = m w.auth in (r, record w { auth = s })

abbrev pub on_redis : {A : Type 0} → (Redis → A × Redis) → World → Result A × World
on_redis m w = let (a, r) = m w.redis in (ok a, record w { redis = r })

abbrev pub set_redis : (Redis → Redis) → World → World
set_redis f w = record w { redis = f w.redis }

abbrev pub parse_phone : String → World → Result String × World
parse_phone phone w = (new_phone phone, w)

-- `DeviceContext::from_parts`; `random` is a new uuid
unfoldable pub from_parts :
    String → Option String → Option String → Option String → Option String → DeviceContext
from_parts random device_id device_name device_type push_token = record {
  device_id = unwrap_or device_id random;
  device_name = unwrap_or device_name "unknown device";
  device_type = unwrap_or device_type "web";
  push_token = push_token;
}

abbrev pub find_by_phone : String → Store → Option User
find_by_phone phone s = find? (λ u. str_eq u.phone phone && is_none u.deleted_at) s.users

-- the early answers of a handler that checks a code, `go` when it matches
abbrev pub on_matched :
    String
    → String
    → String
    → OtpVerifyResult
    → (World → Result Response × World)
    → World
    → Result Response × World
on_matched wrong many gone matched go = go
on_matched wrong many gone (invalid remaining) go = respond 400 (message_with wrong remaining)
on_matched wrong many gone exceeded go = respond 429 (message many)
on_matched wrong many gone otp_not_found go = respond 400 (message gone)

abbrev pub on_code :
    OtpVerifyResult → (World → Result Response × World) → World → Result Response × World
on_code =
    on_matched "Código inválido. Intentos restantes: "
      "Demasiados intentos fallidos. Por favor solicita un nuevo código."
      "El código ha expirado. Por favor solicita uno nuevo."

module _ (env : Env) (otp_ttl : ℕ) where
  unfoldable pub post_register :
      ℕ → String → String → String → String → World → Result Response × World
  post_register now client_ip device_id phone_text otp_code = do
    phone ← parse_phone phone_text
    allowed ← on_redis (
        Otp.check_rate_limit now (concat "register:" (concat client_ip (concat ":" device_id))) 5
          3600)
    existing ← gets (λ w. is_some (find_by_phone phone w.auth))
    if not allowed
        then respond 429 (message "Too many requests")
        else if existing
        then respond 202 (message "Código enviado")
        else (do
          modify (set_redis (store_otp otp_ttl now register phone otp_code))
          respond 202 (message "Código enviado"))

  abbrev pub new_user : ℕ → String → User
  new_user user_id phone = record {
    id = user_id;
    username = none;
    phone = phone;
    two_fa_enabled = false;
    deleted_at = none;
  }

  -- `user_repo.create` and the answer to a phone that is taken
  unfoldable pub create_user : User → World → Result (Unit {0}) × World
  create_user user = do
    throw_if (← gets (λ w. any (λ u. str_eq u.phone user.phone) w.auth.users))
        (already_exists "User already registered")
    modify (λ w. record w { auth = record w.auth { users = user ∷ w.auth.users } })

  unfoldable pub verify_phone :
      ℕ → ℕ → ℕ → String → DeviceContext → String → String → World → Result Response × World
  verify_phone now user_id id token device phone_text code = do
    result ← on_redis (verify_otp now register phone_text code)
    on_code result (do
      phone ← parse_phone phone_text
      create_user (new_user user_id phone)
      a ← on_auth (Handlers.issue_tokens env now id token (new_user user_id phone) device)
      respond 201 (tokens a))

  unfoldable pub post_login :
      ℕ → String → String → String → String → World → Result Response × World
  post_login now client_ip device_id phone_text otp_code = do
    phone ← parse_phone phone_text
    user ← ok_or (← gets (λ w. find_by_phone phone w.auth)) (unauthorized "Credenciales inválidas")
    allowed ← on_redis (
        Otp.check_rate_limit now (concat "login:" (concat client_ip (concat ":" device_id))) 10
          3600)
    if not allowed then respond 429 (message "Too many requests") else (do
      modify (set_redis (store_otp otp_ttl now login phone otp_code))
      respond 202 (message "Código enviado"))

  -- `login_verify` for a user that is found
  unfoldable pub finish_login :
      ℕ → ℕ → String → String → DeviceContext → User → World → Result Response × World
  finish_login now id token otp_code device user =
      if user.two_fa_enabled
      then (do
        modify (set_redis (store_otp otp_ttl now two_fa_login (env.uuid_text user.id) otp_code))
        respond 202 (two_fa_required (generate_temp_token env now user.id)))
      else (do
        a ← on_auth (Handlers.issue_tokens env now id token user device)
        respond 200 (tokens a))

  unfoldable pub login_verify :
      ℕ → ℕ → String → String → DeviceContext → String → String → World → Result Response × World
  login_verify now id token otp_code device phone_text code = do
    result ← on_redis (verify_otp now login phone_text code)
    on_code result (do
      phone ← parse_phone phone_text
      user ← ok_or (← gets (λ w. find_by_phone phone w.auth)) (unauthorized "Usuario no encontrado")
      finish_login now id token otp_code device user)

  unfoldable pub two_fa_verify :
      ℕ → ℕ → String → DeviceContext → String → String → World → Result Response × World
  two_fa_verify now id token device temp_token code = do
    claims ← ok_or (validate_access_token env now temp_token) (unauthorized "Token expired")
    throw_if (not (str_eq claims.sid temp_session_id)) (unauthorized "Token temporal invalido")
    user_id ← ok_or (env.parse_uuid claims.sub) (unauthorized "invalid uuid")
    result ← on_redis (verify_otp now two_fa_login (env.uuid_text user_id) code)
    on_matched "Código 2FA inválido. Intentos restantes: "
        "Demasiados intentos fallidos. Por favor solicita un nuevo código."
        "El código ha expirado. Por favor solicita uno nuevo." result
        (do
          user ←
              ok_or (← gets (λ w. find_by_id user_id w.auth)) (unauthorized "Usuario no encontrado")
          a ← on_auth (Handlers.issue_tokens env now id token user device)
          respond 200 (tokens a))
