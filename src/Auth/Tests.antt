-- ===== src/Auth/Tests.antt =====
-- The theorems on sessions and tokens of crates/api/src/handlers/auth/mod.rs, applied.
use mesty_api.Common.{
  ◌≡◌, ◌≢◌, ◌↔◌, refl, false, none, some, List, [], ◌∷◌, ◌==◌, str_eq, if◌then◌else◌, arith,
}
use mesty_api.DomainError.{err, unauthorized}
use mesty_api.Auth.Store.{DeviceContext, Session, Store, Env, AccessClaims, upsert_session}
use mesty_api.Auth.Tokens.{validate_refresh_token, generate_access_token, store_refresh_token}
use mesty_api.Auth.Handlers.{Response, tokens, issue_tokens, refresh, logout}
use mesty_api.Auth.Middleware.{granted, auth_middleware}
use mesty_api.Auth.Login.{World}
use mesty_api.Auth.Rotation.Requests.{
  Request, log_in, verify_login, post_refresh, remove_session, any_protected, with_auth, serve_all,
}
use mesty_api.Auth.Rotation.Sequences.{refresh-once}
use mesty_api.Auth.Access.{Passes, auth_middleware_iff}
use mesty_api.Auth.Revocation.{logout-refused}
use mesty_api.Auth.Devices.{IsSingle}

abbrev claims : AccessClaims
claims = record { sub = "u1"; sid = "s7"; exp = 500; iat = 100 }

-- digests end in a mark, and one token decodes
abbrev toy : Env
toy = record {
  uuid_text = λ n. if n == 1 then "u1" else "s7";
  parse_uuid = λ t. if str_eq t "u1" then some 1 else if str_eq t "s7" then some 7 else none;
  encode = λ c. "token";
  decode = λ t. if str_eq t "token" then some claims else none;
  sha256 = λ t. if str_eq t "old" then "hash of old" else "hash of another";
  access_ttl = 900;
  refresh_ttl = 5000;
}

abbrev phone : DeviceContext
phone = record { device_id = "d"; device_name = "phone"; device_type = "ios"; push_token = none }

abbrev session : Session
session = record { id = 7; user_id = 1; device = phone; last_active_at = 100; expires_at = 5100 }

abbrev one_session : Store
one_session = record {
  users =
      record {
        id = 1;
        username = none;
        phone = "+573001234567";
        two_fa_enabled = false;
        deleted_at = none;
      }
      ∷ [];
  user_sessions = session ∷ [];
  cached = λ k. some (record { value = "active"; expires_at = 1000 });
  refresh = λ k.
      if str_eq k "hash of old"
      then some (record {
        value = record { user_id = 1; session_id = 7; device = phone };
        expires_at = 5100;
      })
      else none;
}

abbrev answer : Response
answer = record {
  code = 200;
  body = tokens (record {
    access_token = "token";
    refresh_token = "new";
    expires_in = 900;
    user_id = "u1";
    phone = "+573001234567";
    username = none;
  });
}

-- the session with no codes in Redis
abbrev no_codes : World
no_codes = record {
  auth = one_session;
  redis = record { slots = λ p x. record { code = none; attempts = none }; rates = λ k. none };
}

-- The user refreshes with the new token, deletes the session, and logs in again with a code.
abbrev requests : List Request
requests =
    any_protected 210 (some "Bearer token")
    ∷ post_refresh 220 9 "newer" "new"
    ∷ remove_session 1 7
    ∷ log_in 230 "ip" "d" "+573001234567" "123456"
    ∷ verify_login 240 11 "newest" "654321" phone "+573001234567" "123456"
    ∷ []

refresh-once_example :
    let v =
      serve_all toy 300 requests
        (with_auth (refresh toy 200 8 "new" "old" one_session).1 no_codes) in
    refresh toy 300 10 "last" "old" v.auth ≡ (err (unauthorized "Invalid refresh token"), v.auth)
unfolding refresh validate_refresh_token issue_tokens upsert_session generate_access_token
    store_refresh_token
refresh-once_example =
    refresh-once toy 300 200 300 8 10 "new" "last" "old" requests no_codes answer refl
      (tt, (refl, (tt, (tt, (refl, tt))))) refl

auth_middleware_iff_example :
    ((auth_middleware toy 200 (some "Bearer token") one_session).0 ≡ granted 1 7)
    ↔ Passes toy 200 (some "Bearer token") one_session 1 7
auth_middleware_iff_example = auth_middleware_iff toy 200 (some "Bearer token") one_session 1 7

logout-refused_example :
    (auth_middleware toy 200 (some "Bearer token") (logout toy 1 7 one_session).1).0 ≢ granted 1 7
logout-refused_example = logout-refused toy 200 (some "Bearer token") 1 7 one_session

passing : Passes toy 200 (some "Bearer token") one_session 1 7
passing = record {
  token = "Bearer token";
  claims = claims;
  bearer = refl;
  scheme = refl;
  decoded = refl;
  in_time = refl;
  permanent = refl;
  user = refl;
  session = refl;
  live = refl;
}

one_session-IsSingle : IsSingle one_session
one_session-IsSingle v e = ground arith
