-- ===== src/Otp/Tests.antt =====
-- The theorems on one-time codes and rate limits of crates/api/src/services, applied.
use mesty_api.Common.{ℕ, ◌+◌, ◌≡◌, refl, String, none, some, List, [], ◌∷◌, arith}
use mesty_api.Otp.{
  not_found, login, Redis, verify_otp, verify_otp_with_limit, verify_slot, get, live_counter,
}
use mesty_api.Otp.Attempts.{guess_all, guess_all-lockout, verify_otp-once}
use mesty_api.Otp.RateLimit.{check_all, allowed_calls, total, check_all-window}

-- a code for each subject, and no counter
abbrev one_code : Redis
one_code = record {
  slots = λ p x. record {
    code = some (record { value = "123456"; expires_at = 400 });
    attempts = none;
  };
  rates = λ k. none;
}

abbrev guesses : List (ℕ × String)
guesses = (5, "000000") ∷ (1, "111111") ∷ (90, "222222") ∷ []

guess_all-lockout_example :
    let (t, r) = guess_all login "+57300" guesses 100 one_code in
    (verify_otp (t + 1) login "+57300" "123456" r).0 ≡ not_found
guess_all-lockout_example =
    guess_all-lockout login "+57300" "123456" 400 100 1 guesses "123456" one_code refl
      (refl, (refl, (refl, tt))) (omega arith)

verify_otp-once_example :
    let (t, r) =
      guess_all login "+57300" guesses 100 (verify_otp 100 login "+57300" "123456" one_code).1 in
    (verify_otp (t + 1) login "+57300" "123456" r).0 ≡ not_found
unfolding verify_otp verify_otp_with_limit verify_slot get
verify_otp-once_example =
    verify_otp-once login "+57300" 100 1 guesses "123456" "123456" one_code refl

abbrev two_tries : Redis
two_tries = record {
  slots = λ p x. record {
    code = some (record { value = "123456"; expires_at = 400 });
    attempts = some (record { count = 2; expires_at = some 400 });
  };
  rates = λ k. none;
}

check_all-window_example :
    allowed_calls (check_all "login:+57300" 3 3600 (0 ∷ 10 ∷ 10 ∷ 10 ∷ 10 ∷ []) 100 one_code) ≡ 3
unfolding live_counter total
check_all-window_example =
    check_all-window "login:+57300" 3 3600 100 (10 ∷ 10 ∷ 10 ∷ 10 ∷ []) one_code refl (omega arith)
