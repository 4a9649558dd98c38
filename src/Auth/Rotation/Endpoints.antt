-- ===== src/Auth/Rotation/Endpoints.antt =====
-- The refresh tokens when users register, log in and recover: the handlers of
-- crates/api/src/handlers/auth/mod.rs over the tables, the tokens and the one-time codes.
use mesty_api.Common.{ℕ, ◌≡◌, refl, inl, inr, false, String, ◌∷◌, str_eq, arith, Option-cases}
use mesty_api.DomainError.{Result, ok, err}
use mesty_api.Otp.{login, verify_otp}
use mesty_api.Auth.Store.{User, DeviceContext, Env, find_by_id}
use mesty_api.Auth.Tokens.{validate_access_token}
use mesty_api.Auth.Phone.{new_phone}
use mesty_api.Auth.Login.{
  World, find_by_phone, post_register, create_user, new_user, verify_phone, post_login,
  finish_login, login_verify, two_fa_verify,
}
use mesty_api.Auth.Recovery.{post_recover, recover_verify, post_two_fa_setup, two_fa_setup_verify}
use mesty_api.Auth.Rotation.{IsGone, issue_tokens-IsGone}

module _ (env : Env) (otp_ttl : ℕ) where
  pub post_register_refresh :
      (now : ℕ) (ip device phone code : String) (w : World)
      → (post_register env otp_ttl now ip device phone code w).1.auth ≡ w.auth
  unfolding post_register
  post_register_refresh now ip device phone code w = ground arith

  pub post_login_refresh :
      (now : ℕ) (ip device phone code : String) (w : World)
      → (post_login env otp_ttl now ip device phone code w).1.auth ≡ w.auth
  unfolding post_login
  post_login_refresh now ip device phone code w = ground arith

  pub post_recover_refresh :
      (now : ℕ) (phone code : String) (w : World)
      → (post_recover env otp_ttl now phone code w).1.auth ≡ w.auth
  unfolding post_recover
  post_recover_refresh now phone code w = ground arith

  pub recover_verify_refresh :
      (now : ℕ) (phone code : String) (w : World)
      → (recover_verify env otp_ttl now phone code w).1.auth ≡ w.auth
  unfolding recover_verify
  recover_verify_refresh now phone code w = ground arith

  pub post_two_fa_setup_refresh :
      (now u : ℕ) (code : String) (w : World)
      → (post_two_fa_setup env otp_ttl now u code w).1.auth ≡ w.auth
  unfolding post_two_fa_setup
  post_two_fa_setup_refresh now u code w = ground arith

  pub two_fa_setup_verify_refresh :
      (now u : ℕ) (code : String) (w : World)
      → (two_fa_setup_verify env otp_ttl now u code w).1.auth.refresh ≡ w.auth.refresh
  unfolding two_fa_setup_verify
  two_fa_setup_verify_refresh now u code w = ground arith

  module _ (key : String) where
    verified :
        (now user_id id : ℕ) (token : String) (device : DeviceContext) (phone code : String)
        (w : World)
        → str_eq (env.sha256 token) key ≡ false
        → IsGone env key w.auth
        → (r : Result String) → new_phone phone ≡ r
        → IsGone env key (verify_phone env otp_ttl now user_id id token device phone code w).1.auth
    unfolding verify_phone create_user
    verified now user_id id token device phone code w other gone (err e) f = ground (arith, f)
    verified now user_id id token device phone code w other gone (ok q) f =
        let new : User = new_user env otp_ttl user_id q in
        ground (
          arith,
          f,
          issue_tokens-IsGone env now id token key new device
              (record w.auth { users = new ∷ w.auth.users }) other gone,
        )

    pub verify_phone-IsGone :
        (now user_id id : ℕ) (token : String) (device : DeviceContext) (phone code : String)
        (w : World)
        → str_eq (env.sha256 token) key ≡ false
        → IsGone env key w.auth
        → IsGone env key (verify_phone env otp_ttl now user_id id token device phone code w).1.auth
    verify_phone-IsGone now user_id id token device phone code w other gone =
        verified now user_id id token device phone code w other gone (new_phone phone) refl

    finish_login-IsGone :
        (now id : ℕ) (token code : String) (device : DeviceContext) (user : User) (w : World)
        → str_eq (env.sha256 token) key ≡ false
        → IsGone env key w.auth
        → IsGone env key (finish_login env otp_ttl now id token code device user w).1.auth
    unfolding finish_login
    finish_login-IsGone now id token code device user w other gone =
        ground (arith, issue_tokens-IsGone env now id token key user device w.auth other gone)

    -- the login by the phone and the user that are found
    logged_in :
        (now id : ℕ) (token new_code : String) (device : DeviceContext) (phone code : String)
        (w : World)
        → str_eq (env.sha256 token) key ≡ false
        → IsGone env key w.auth
        → (r : Result String) → new_phone phone ≡ r
        → IsGone env key (login_verify env otp_ttl now id token new_code device phone code w).1.auth
    unfolding login_verify
    logged_in now id token new_code device phone code w other gone (err e) f = ground (arith, f)
    logged_in now id token new_code device phone code w other gone (ok q) f =
        elim (Option-cases (find_by_phone q w.auth)) [
          | inl n ↦ ground (arith, f, n)
          | inr (user, n) ↦
              let after : World = record w {
                redis = (verify_otp now login phone code w.redis).1;
              } in
              ground (
                arith,
                f,
                n,
                finish_login-IsGone now id token new_code device user after other gone,
              )
        ]

    pub login_verify-IsGone :
        (now id : ℕ) (token new_code : String) (device : DeviceContext) (phone code : String)
        (w : World)
        → str_eq (env.sha256 token) key ≡ false
        → IsGone env key w.auth
        → IsGone env key (login_verify env otp_ttl now id token new_code device phone code w).1.auth
    login_verify-IsGone now id token new_code device phone code w other gone =
        logged_in now id token new_code device phone code w other gone (new_phone phone) refl

    pub two_fa_verify-IsGone :
        (now id : ℕ) (token : String) (device : DeviceContext) (temp_token code : String)
        (w : World)
        → str_eq (env.sha256 token) key ≡ false
        → IsGone env key w.auth
        → IsGone env key (two_fa_verify env otp_ttl now id token device temp_token code w).1.auth
    unfolding two_fa_verify
    two_fa_verify-IsGone now id token device temp_token code w other gone =
        elim (Option-cases (validate_access_token env now temp_token)) [
          | inl e ↦ ground (arith, e)
          | inr (claims, e) ↦ elim (Option-cases (env.parse_uuid claims.sub)) [
            | inl f ↦ ground (arith, e, f)
            | inr (u, f) ↦ elim (Option-cases (find_by_id u w.auth)) [
              | inl g ↦ ground (arith, e, f, g)
              | inr (user, g) ↦ ground (
                arith,
                e,
                f,
                g,
                issue_tokens-IsGone env now id token key user device w.auth other gone,
              )
            ]
          ]
        ]
