-- ===== src/Auth/Rotation/Sequences.antt =====
-- A refresh token is used once, whatever requests to the endpoints of
-- crates/api/src/handlers/auth/mod.rs come in between.
use mesty_api.Common.{ℕ, ◌≡◌, String, List, [], ◌∷◌, arith, All}
use mesty_api.DomainError.{unauthorized, ok, err}
use mesty_api.Auth.Store.{Env}
use mesty_api.Auth.Handlers.{Response, refresh}
use mesty_api.Auth.Login.{World}
use mesty_api.Auth.Rotation.{
  IsGone, validate-IsGone, refresh-IsGone, logout-IsGone, middleware_refresh,
  delete_session_refresh, refused, validated-IsGone, refreshed,
}
use mesty_api.Auth.Rotation.Endpoints.{
  post_register_refresh, post_login_refresh, post_recover_refresh, recover_verify_refresh,
  post_two_fa_setup_refresh, two_fa_setup_verify_refresh, verify_phone-IsGone, login_verify-IsGone,
  two_fa_verify-IsGone,
}
use mesty_api.Auth.Rotation.Requests.{
  Request, register_phone, verify_register, log_in, verify_login, verify_second, post_refresh,
  remove_session, post_logout, recover_phone, verify_recover, set_up_second, verify_set_up,
  any_protected, with_auth, serve, serve_all, IsOther, IsNew,
}

module _ (env : Env) (otp_ttl : ℕ) where
  serve-IsGone :
      (old : String) (r : Request) (w : World)
      → IsOther env old r
      → IsGone env (env.sha256 old) w.auth
      → IsGone env (env.sha256 old) (serve env otp_ttl r w).auth
  unfolding serve with_auth
  serve-IsGone old (register_phone now ip device phone code) w new gone =
      ground (arith, post_register_refresh env otp_ttl now ip device phone code w)
  serve-IsGone old (verify_register now user_id id token device phone code) w new gone =
      verify_phone-IsGone env otp_ttl (env.sha256 old) now user_id id token device phone code w new
        gone
  serve-IsGone old (log_in now ip device phone code) w new gone =
      ground (arith, post_login_refresh env otp_ttl now ip device phone code w)
  serve-IsGone old (verify_login now id token new_code device phone code) w new gone =
      login_verify-IsGone env otp_ttl (env.sha256 old) now id token new_code device phone code w new
        gone
  serve-IsGone old (verify_second now id token device temp_token code) w new gone =
      two_fa_verify-IsGone env otp_ttl (env.sha256 old) now id token device temp_token code w new
        gone
  serve-IsGone old (post_refresh now id token other) w new gone =
      refresh-IsGone env now id token other (env.sha256 old) w.auth new
        (validate-IsGone env now other (env.sha256 old) w.auth gone)
  serve-IsGone old (remove_session u sid) w new gone =
      ground (arith, delete_session_refresh env u sid w.auth)
  serve-IsGone old (post_logout u sid) w new gone =
      logout-IsGone env u sid (env.sha256 old) w.auth gone
  serve-IsGone old (recover_phone now phone code) w new gone =
      ground (arith, post_recover_refresh env otp_ttl now phone code w)
  serve-IsGone old (verify_recover now phone code) w new gone =
      ground (arith, recover_verify_refresh env otp_ttl now phone code w)
  serve-IsGone old (set_up_second now u code) w new gone =
      ground (arith, post_two_fa_setup_refresh env otp_ttl now u code w)
  serve-IsGone old (verify_set_up now u code) w new gone =
      ground (arith, two_fa_setup_verify_refresh env otp_ttl now u code w)
  serve-IsGone old (any_protected now header) w new gone =
      ground (arith, middleware_refresh env now header w.auth)

  serve_all-IsGone :
      (old : String) (rs : List Request) (w : World)
      → All (IsOther env old) rs
      → IsGone env (env.sha256 old) w.auth
      → IsGone env (env.sha256 old) (serve_all env otp_ttl rs w).auth
  unfolding serve_all
  serve_all-IsGone old [] w new gone = gone
  serve_all-IsGone old (r ∷ rs) w (n, new) gone =
      serve_all-IsGone old rs (serve env otp_ttl r w) new (serve-IsGone old r w n gone)

  -- After a refresh with a token has succeeded, every later one with the same token is refused with 401
  -- and changes nothing, whatever requests to register, log in, recover, set up or use a second factor,
  -- refresh, delete a session, log out or pass the middleware come in between, if the digests of the
  -- tokens that are drawn differ from that of the old one.
  pub refresh-once :
      (now now' id id' : ℕ) (token token' old : String) (rs : List Request) (w : World)
      (x : Response)
      → IsNew env old token
      → All (IsOther env old) rs
      → (refresh env now id token old w.auth).0 ≡ ok x
      → let v = serve_all env otp_ttl rs (with_auth (refresh env now id token old w.auth).1 w) in
        refresh env now' id' token' old v.auth
        ≡ (err (unauthorized "Invalid refresh token"), v.auth)
  unfolding with_auth
  refresh-once now now' id id' token token' old rs w x new others e =
      let (r, v) = refreshed env now id token old w.auth x e in
      let used =
        refresh-IsGone env now id token old (env.sha256 old) w.auth new
          (validated-IsGone env now old w.auth r v) in
      let after : World = with_auth (refresh env now id token old w.auth).1 w in
      refused env now' id' token' old (serve_all env otp_ttl rs after).auth
        (serve_all-IsGone old rs after others used)
