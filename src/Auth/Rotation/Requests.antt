-- ===== src/Auth/Rotation/Requests.antt =====
-- Requests to the endpoints of crates/api/src/handlers/auth/mod.rs, and those that pass the
-- middleware of crates/api/src/middleware/auth.rs: what they leave of tables, tokens and codes.
-- list_sessions, which only reads, is left out.
use mesty_api.Common.{ℕ, ◌≡◌, false, String, Option, List, [], ◌∷◌, str_eq}
use mesty_api.Auth.Store.{DeviceContext, Store, Env}
use mesty_api.Auth.Handlers.{refresh, delete_session, logout}
use mesty_api.Auth.Middleware.{auth_middleware}
use mesty_api.Auth.Login.{
  World, post_register, verify_phone, post_login, login_verify, two_fa_verify,
}
use mesty_api.Auth.Recovery.{post_recover, recover_verify, post_two_fa_setup, two_fa_setup_verify}

-- a request with what it draws: `id` and `token` are new uuids, `new_code` a new code
pub data Request : Type 0 where
  register_phone : (now : ℕ) (ip device phone new_code : String) → Request
  verify_register :
      (now user_id id : ℕ) (token : String) (device : DeviceContext) (phone code : String) → Request
  log_in : (now : ℕ) (ip device phone new_code : String) → Request
  verify_login :
      (now id : ℕ) (token new_code : String) (device : DeviceContext) (phone code : String)
      → Request
  verify_second :
      (now id : ℕ) (token : String) (device : DeviceContext) (temp_token code : String) → Request
  post_refresh : (now id : ℕ) (token refresh_token : String) → Request
  remove_session : (auth_user session_id : ℕ) → Request
  post_logout : (auth_user auth_session : ℕ) → Request
  recover_phone : (now : ℕ) (phone new_code : String) → Request
  verify_recover : (now : ℕ) (phone code : String) → Request
  set_up_second : (now auth_user : ℕ) (new_code : String) → Request
  verify_set_up : (now auth_user : ℕ) (code : String) → Request
  any_protected : (now : ℕ) (authorization : Option String) → Request

-- the tables and tokens that a handler without codes leaves
unfoldable pub with_auth : Store → World → World
with_auth s w = record w { auth = s }

module _ (env : Env) (otp_ttl : ℕ) where
  unfoldable pub serve : Request → World → World
  serve (register_phone now ip device phone new_code) w =
      (post_register env otp_ttl now ip device phone new_code w).1
  serve (verify_register now user_id id token device phone code) w =
      (verify_phone env otp_ttl now user_id id token device phone code w).1
  serve (log_in now ip device phone new_code) w =
      (post_login env otp_ttl now ip device phone new_code w).1
  serve (verify_login now id token new_code device phone code) w =
      (login_verify env otp_ttl now id token new_code device phone code w).1
  serve (verify_second now id token device temp_token code) w =
      (two_fa_verify env otp_ttl now id token device temp_token code w).1
  serve (post_refresh now id token old) w = with_auth (refresh env now id token old w.auth).1 w
  serve (remove_session u sid) w = with_auth (delete_session u sid w.auth).1 w
  serve (post_logout u sid) w = with_auth (logout env u sid w.auth).1 w
  serve (recover_phone now phone new_code) w = (post_recover env otp_ttl now phone new_code w).1
  serve (verify_recover now phone code) w = (recover_verify env otp_ttl now phone code w).1
  serve (set_up_second now u new_code) w = (post_two_fa_setup env otp_ttl now u new_code w).1
  serve (verify_set_up now u code) w = (two_fa_setup_verify env otp_ttl now u code w).1
  serve (any_protected now header) w = with_auth (auth_middleware env now header w.auth).1 w

  unfoldable pub serve_all : List Request → World → World
  serve_all [] w = w
  serve_all (r ∷ rs) w = serve_all rs (serve r w)

module _ (env : Env) where
  abbrev pub IsNew : String → String → Type 0
  IsNew old token = str_eq (env.sha256 token) (env.sha256 old) ≡ false

  -- the new token of a request is not `old`, as their digests show
  abbrev pub IsOther : String → Request → Type 0
  IsOther old (post_refresh now id token _) = IsNew old token
  IsOther old (verify_register now user_id id token _ _ _) = IsNew old token
  IsOther old (verify_login now id token _ _ _ _) = IsNew old token
  IsOther old (verify_second now id token _ _ _) = IsNew old token
  IsOther old (register_phone _ _ _ _ _) = Unit
  IsOther old (log_in _ _ _ _ _) = Unit
  IsOther old (remove_session _ _) = Unit
  IsOther old (post_logout _ _) = Unit
  IsOther old (recover_phone _ _ _) = Unit
  IsOther old (verify_recover _ _ _) = Unit
  IsOther old (set_up_second _ _ _) = Unit
  IsOther old (verify_set_up _ _ _) = Unit
  IsOther old (any_protected _ _) = Unit
