-- ===== src/Auth/CodeTests.antt =====
-- The theorems on codes and second factors of crates/api/src/handlers/auth/mod.rs, applied.
use mesty_api.Common.{refl, false, none, some, [], ◌∷◌, str_eq, if◌then◌else◌}
use mesty_api.Otp.{verify_otp, verify_otp_with_limit, verify_slot, get}
use mesty_api.Auth.Store.{DeviceContext, Env, AccessClaims, upsert_session}
use mesty_api.Auth.Tokens.{generate_access_token, store_refresh_token, validate_access_token}
use mesty_api.Auth.Phone.{new_phone, is_international, all_digits}
use mesty_api.Auth.Handlers.{AuthResponse, issue_tokens}
use mesty_api.Auth.Login.{World, login_verify, finish_login, two_fa_verify}
use mesty_api.Auth.Codes.{
  ShowedCode, ShowedSecond, login_verify-ShowedCode, two_fa_verify-ShowedSecond,
}

abbrev claims : AccessClaims
claims = record { sub = "u1"; sid = "temp"; exp = 500; iat = 100 }

abbrev toy : Env
toy = record {
  uuid_text = λ n. "u1";
  parse_uuid = λ t. if str_eq t "u1" then some 1 else none;
  encode = λ c. "token";
  decode = λ t. if str_eq t "temporary" then some claims else none;
  sha256 = λ t. t;
  access_ttl = 900;
  refresh_ttl = 5000;
}

abbrev phone : DeviceContext
phone = record { device_id = "d"; device_name = "phone"; device_type = "ios"; push_token = none }

abbrev world : World
world = record {
  auth = record {
    users =
        record {
          id = 1;
          username = none;
          phone = "+57300123";
          two_fa_enabled = false;
          deleted_at = none;
        }
        ∷ [];
    user_sessions = [];
    cached = λ k. none;
    refresh = λ k. none;
  };
  redis = record {
    slots = λ p x. record {
      code = some (record { value = "123456"; expires_at = 400 });
      attempts = none;
    };
    rates = λ k. none;
  };
}

abbrev answer : AuthResponse
answer = record {
  access_token = "token";
  refresh_token = "new";
  expires_in = 900;
  user_id = "u1";
  phone = "+57300123";
  username = none;
}

login_verify-ShowedCode_example : ShowedCode toy 300 200 "+57300123" "123456" world
unfolding login_verify finish_login issue_tokens upsert_session generate_access_token
    store_refresh_token new_phone is_international all_digits verify_otp verify_otp_with_limit
    verify_slot get
login_verify-ShowedCode_example =
    login_verify-ShowedCode toy 300 200 8 "new" "654321" phone "+57300123" "123456" world answer
      refl

two_fa_verify-ShowedSecond_example : ShowedSecond toy 300 200 "temporary" "123456" world
unfolding two_fa_verify validate_access_token issue_tokens upsert_session generate_access_token
    store_refresh_token verify_otp verify_otp_with_limit verify_slot get
two_fa_verify-ShowedSecond_example =
    two_fa_verify-ShowedSecond toy 300 200 8 "new" phone "temporary" "123456" world answer refl
