-- ===== src/Auth/Recovery.antt =====
-- Recovering an account and enabling the second factor: recover, recover_verify, two_fa_setup and
-- two_fa_setup_verify of crates/api/src/handlers/auth/mod.rs.
use mesty_api.Common.{ℕ, true, String, is_some, is_none, if◌then◌else◌, ◌==◌, ◌&&◌, update_where}
use mesty_api.DomainError.{unauthorized, not_found, Result, gets, modify, ok_or, ◌>>=◌, ◌>>◌}
use mesty_api.Otp.{recover, two_fa_setup, verify_otp, store_otp}
use mesty_api.Auth.Store.{Env, find_by_id}
use mesty_api.Auth.Tokens.{generate_temp_token}
use mesty_api.Auth.Login.{
  World, message, recover_token, setup_code, Response, respond, on_redis, set_redis, parse_phone,
  find_by_phone, on_matched, on_code,
}

module _ (env : Env) (otp_ttl : ℕ) where
  unfoldable pub post_recover : ℕ → String → String → World → Result Response × World
  post_recover now phone_text otp_code = do
    phone ← parse_phone phone_text
    known ← gets (λ w. is_some (find_by_phone phone w.auth))
    modify (if known then set_redis (store_otp otp_ttl now recover phone otp_code) else λ w. w)
    respond 202 (message "Si la cuenta existe, enviamos un codigo de recuperacion")

  unfoldable pub recover_verify : ℕ → String → String → World → Result Response × World
  recover_verify now phone_text code = do
    result ← on_redis (verify_otp now recover phone_text code)
    on_code result (do
      phone ← parse_phone phone_text
      user ← ok_or (← gets (λ w. find_by_phone phone w.auth)) (unauthorized "Usuario no encontrado")
      respond 200 (recover_token (generate_temp_token env now user.id)))

  unfoldable pub post_two_fa_setup : ℕ → ℕ → String → World → Result Response × World
  post_two_fa_setup now auth_user otp_code = do
    modify (set_redis (store_otp otp_ttl now two_fa_setup (env.uuid_text auth_user) otp_code))
    respond 200 (setup_code "2FA setup code generated" otp_code)

  -- `user_repo.update` of the user with the flag set
  abbrev pub enable_two_fa : ℕ → World → World
  enable_two_fa user_id w = record w {
    auth = record w.auth {
      users =
          update_where (λ u. u.id == user_id && is_none u.deleted_at)
            (λ u. record u { two_fa_enabled = true }) w.auth.users;
    };
  }

  unfoldable pub two_fa_setup_verify : ℕ → ℕ → String → World → Result Response × World
  two_fa_setup_verify now auth_user code = do
    result ← on_redis (verify_otp now two_fa_setup (env.uuid_text auth_user) code)
    on_matched "Código de configuración inválido. Intentos restantes: "
        "Demasiados intentos fallidos. Por favor inicia la configuración de 2FA nuevamente."
        "El código ha expirado. Por favor inicia la configuración de 2FA nuevamente." result
        (do
          user ←
              ok_or (← gets (λ w. find_by_id auth_user w.auth)) (not_found "Usuario no encontrado")
          modify (enable_two_fa user.id)
          respond 200 (message "2FA habilitado"))
