-- ===== src/Auth/Store.antt =====
-- The tables `users` and `user_sessions` with the session queries of `PostgresUserRepository`
-- (crates/infrastructure/src/repositories/user.rs), and the keys `session:…` and `refresh:…` of Redis.
-- Uuids and access tokens are texts to the outside: `Env` holds how they are written and read.
use mesty_api.Common.{
  ℕ, Bool, String, Option, none, some, List, ◌&&◌, ◌||◌, ◌==◌, not, any, find?, is_none, ltb,
  if◌then◌else◌, str_eq, delete_where, select_where, order_by, upsert,
}
use mathlib.Core.List.{reverse}
use mesty_api.DomainError.{validation, internal, Result, pure, gets, modify, throw_if, ◌>>=◌, ◌>>◌}

pub record User : Type 0 where
  pub id : ℕ
  pub username : Option String
  pub phone : String
  pub two_fa_enabled : Bool
  pub deleted_at : Option ℕ

pub record DeviceContext : Type 0 where
  pub device_id : String
  pub device_name : String
  pub device_type : String
  pub push_token : Option String

pub record Session : Type 0 where
  pub id : ℕ
  pub user_id : ℕ
  pub device : DeviceContext
  pub last_active_at : ℕ
  pub expires_at : ℕ

pub record RefreshSession : Type 0 where
  pub user_id : ℕ
  pub session_id : ℕ
  pub device : DeviceContext

-- a value under SET EX, which is there before its time of expiry
pub record Timed (A : Type 0) : Type 0 where
  pub value : A
  pub expires_at : ℕ

-- `cached` is the values of `session:<uuid>`, `refresh` those of `refresh:<text>`
pub record Store : Type 0 where
  pub users : List User
  pub user_sessions : List Session
  pub cached : ℕ → Option (Timed String)
  pub refresh : String → Option (Timed RefreshSession)

pub record AccessClaims : Type 0 where
  pub sub : String
  pub sid : String
  pub exp : ℕ
  pub iat : ℕ

-- the crates uuid, jsonwebtoken and sha2: a text that `parse_uuid` or `decode` refuses gives `none`
pub record Env : Type 0 where
  pub uuid_text : ℕ → String
  pub parse_uuid : String → Option ℕ
  pub encode : AccessClaims → String
  pub decode : String → Option AccessClaims
  pub sha256 : String → String
  pub access_ttl : ℕ
  pub refresh_ttl : ℕ

-- `GET`
abbrev pub get : {A : Type 0} → ℕ → Option (Timed A) → Option A
get now none = none
get now (some t) = if ltb now t.expires_at then some t.value else none

abbrev pub find_by_id : ℕ → Store → Option User
find_by_id u s = find? (λ r. r.id == u && is_none r.deleted_at) s.users

-- the enum `device_type`
abbrev pub is_device_type : String → Bool
is_device_type t = str_eq t "android" || str_eq t "ios" || str_eq t "web" || str_eq t "desktop"

-- `UNIQUE (user_id, device_id)`
abbrev pub is_device : ℕ → String → Session → Bool
is_device u d r = r.user_id == u && str_eq r.device.device_id d

abbrev pub new_session : ℕ → ℕ → ℕ → DeviceContext → ℕ → Session
new_session id now user_id device expires_at = record {
  id = id;
  user_id = user_id;
  device = device;
  last_active_at = now;
  expires_at = expires_at;
}

-- `id` is `Uuid::new_v4()`, which is no id of the table
unfoldable pub upsert_session : ℕ → ℕ → ℕ → DeviceContext → ℕ → Store → Result ℕ × Store
upsert_session id now user_id device expires_at = do
  throw_if (not (is_device_type device.device_type)) (internal "Database operation failed")
  throw_if (← gets (λ s. not (any (λ r. r.id == user_id) s.users)))
      (validation "Referenced resource not found")
  modify (λ s. record s {
    user_sessions =
        upsert (is_device user_id device.device_id) (new_session id now user_id device expires_at)
          (λ r. record r {
            id = id;
            device = device;
            expires_at = expires_at;
            last_active_at = now;
          })
          s.user_sessions;
  })
  pure id

-- `ORDER BY last_active_at DESC`
unfoldable pub list_sessions : ℕ → Store → List Session
list_sessions user_id s =
    reverse
      (order_by (λ r. r.last_active_at) (select_where (λ r. r.user_id == user_id) s.user_sessions))

-- `WHERE id = … AND user_id = …`
abbrev pub is_session : ℕ → ℕ → Session → Bool
is_session user_id session_id r = r.id == session_id && r.user_id == user_id

unfoldable pub delete_session : ℕ → ℕ → Store → Result Bool × Store
delete_session user_id session_id = do
  deleted ← gets (λ s. any (is_session user_id session_id) s.user_sessions)
  modify (λ s. record s {
    user_sessions = delete_where (is_session user_id session_id) s.user_sessions;
  })
  pure deleted

unfoldable pub is_session_valid : ℕ → ℕ → ℕ → Store → Bool
is_session_valid now user_id session_id s =
    any (λ r. is_session user_id session_id r && ltb now r.expires_at) s.user_sessions
