-- ===== src/Auth/Codes.antt =====
-- What a user must have shown to get tokens: the endpoints of crates/api/src/handlers/auth/mod.rs.
use mesty_api.Common.{
  ℕ, ◌≡◌, refl, inl, inr, true, false, String, some, str_eq, arith, Option-cases, Bool-cases, ap,
  sym, ◌∙◌, eq_iff,
}
use mesty_api.DomainError.{Result, ok, err}
use mesty_api.Otp.{
  OtpVerifyResult, matched, invalid, exceeded, not_found as otp_not_found, login, two_fa_login,
  verify_otp,
}
use mesty_api.Auth.Store.{User, DeviceContext, Env, AccessClaims}
use mesty_api.Auth.Tokens.{validate_access_token, temp_session_id}
use mesty_api.Auth.Phone.{new_phone}
use mesty_api.Auth.Handlers.{AuthResponse}
use mesty_api.Auth.Login.{World, tokens, find_by_phone, finish_login, login_verify, two_fa_verify}

-- the text of a phone is what was sent
new_phone_same : (text phone : String) → new_phone text ≡ ok phone → phone ≡ text
unfolding new_phone
new_phone_same text phone e = ground arith

module _ (env : Env) (ttl : ℕ) where
  -- A login with a one-time code: the code matched, and the user of the phone has no second factor.
  abbrev pub ShowedCode : ℕ → String → String → World → Type 0
  ShowedCode now phone code w =
      (user : User) × ((verify_otp now login phone code w.redis).0 ≡ matched)
      × (find_by_phone phone w.auth ≡ some user)
      × (user.two_fa_enabled ≡ false)

  finish_login_tokens :
      (now id : ℕ) (token otp_code : String) (device : DeviceContext) (user : User) (w : World)
      (a : AuthResponse)
      → (finish_login env ttl now id token otp_code device user w).0
        ≡ ok (record { code = 200; body = tokens a })
      → user.two_fa_enabled ≡ false
  unfolding finish_login
  finish_login_tokens now id token otp_code device user w a e = ground arith

  -- `login_verify` answers with tokens only if the code matched and the user has no second factor.
  pub login_verify-ShowedCode :
      (now id : ℕ) (token otp_code : String) (device : DeviceContext) (phone code : String)
      (w : World) (a : AuthResponse)
      → (login_verify env ttl now id token otp_code device phone code w).0
        ≡ ok (record { code = 200; body = tokens a })
      → ShowedCode now phone code w
  unfolding login_verify
  login_verify-ShowedCode now id token otp_code device phone code w a e =
      go (verify_otp now login phone code w.redis).0 refl
    where
      w' : World
      w' = record w { redis = (verify_otp now login phone code w.redis).1 }

      on_phone :
          (q : Result String)
          → new_phone phone ≡ q
          → (verify_otp now login phone code w.redis).0 ≡ matched
          → ShowedCode now phone code w
      on_phone (err x) p v = absurd (ground arith)
      on_phone (ok text) p v =
          let same : text ≡ phone = new_phone_same phone text p in
          elim (Option-cases (find_by_phone text w.auth)) [
            | inl none_there ↦ absurd (ground arith)
            | inr (user, there) ↦ (
              user,
              v,
              ap (λ x. find_by_phone x w.auth) (sym same) ∙ there,
              finish_login_tokens now id token otp_code device user w' a (ground arith),
            )
          ]

      go :
          (r : OtpVerifyResult)
          → (verify_otp now login phone code w.redis).0 ≡ r
          → ShowedCode now phone code w
      go matched v = on_phone (new_phone phone) refl v
      go (invalid n) v = absurd (ground arith)
      go exceeded v = absurd (ground arith)
      go otp_not_found v = absurd (ground arith)

  -- A login with a second factor: a temporary token that has not expired, and the code sent for its user.
  abbrev pub ShowedSecond : ℕ → String → String → World → Type 0
  ShowedSecond now temp_token code w =
      (claims : AccessClaims) × (u : ℕ) × (validate_access_token env now temp_token ≡ some claims)
      × (claims.sid ≡ temp_session_id)
      × (env.parse_uuid claims.sub ≡ some u)
      × ((verify_otp now two_fa_login (env.uuid_text u) code w.redis).0 ≡ matched)

  -- `two_fa_verify` answers with tokens only for a temporary token that is valid and the second code of
  -- its user.
  pub two_fa_verify-ShowedSecond :
      (now id : ℕ) (token : String) (device : DeviceContext) (temp_token code : String) (w : World)
      (a : AuthResponse)
      → (two_fa_verify env ttl now id token device temp_token code w).0
        ≡ ok (record { code = 200; body = tokens a })
      → ShowedSecond now temp_token code w
  unfolding two_fa_verify
  two_fa_verify-ShowedSecond now id token device temp_token code w a e =
      elim (Option-cases (validate_access_token env now temp_token)) [
        | inl bad ↦ absurd (ground arith)
        | inr (claims, valid) ↦ elim (Bool-cases (str_eq claims.sid temp_session_id)) [
          | inr other ↦ absurd (ground arith)
          | inl temp ↦ elim (Option-cases (env.parse_uuid claims.sub)) [
            | inl no_user ↦ absurd (ground arith)
            | inr (u, user) ↦ (
              claims,
              u,
              valid,
              (eq_iff claims.sid temp_session_id).0 temp,
              user,
              go claims u valid temp user
                  (verify_otp now two_fa_login (env.uuid_text u) code w.redis).0 refl,
            )
          ]
        ]
      ]
    where
      go :
          (claims : AccessClaims) (u : ℕ)
          → validate_access_token env now temp_token ≡ some claims
          → str_eq claims.sid temp_session_id ≡ true
          → env.parse_uuid claims.sub ≡ some u
          → (r : OtpVerifyResult)
          → (verify_otp now two_fa_login (env.uuid_text u) code w.redis).0 ≡ r
          → r ≡ matched
      go claims u valid temp user matched v = refl
      go claims u valid temp user (invalid n) v = absurd (ground arith)
      go claims u valid temp user exceeded v = absurd (ground arith)
      go claims u valid temp user otp_not_found v = absurd (ground arith)
