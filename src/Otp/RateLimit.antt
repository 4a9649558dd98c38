-- ===== src/Otp/RateLimit.antt =====
-- The fixed window of `check_rate_limit`: crates/api/src/services/otp.rs and
-- crates/api/src/services/rate_limit.rs.
use mesty_api.Common.{
  ℕ, suc, ◌+◌, ◌-◌, ◌<◌, ◌≡◌, Bool, true, false, String, none, some, List, [], ◌∷◌, leb,
  if◌then◌else◌, str_eq_refl, arith, length,
}
use mesty_api.Otp.{Redis, live_counter, incr, count_call, check_rate_limit}

-- the answers to calls with one key, each with the time since the one before it
pub check_all : String → ℕ → ℕ → List ℕ → ℕ → Redis → List Bool
check_all key limit window [] now r = []
check_all key limit window (wait ∷ ws) now r =
    let (allowed, r') = check_rate_limit (now + wait) key limit window r in
    allowed ∷ check_all key limit window ws (now + wait) r'

pub allowed_calls : List Bool → ℕ
allowed_calls [] = 0
allowed_calls (true ∷ bs) = suc (allowed_calls bs)
allowed_calls (false ∷ bs) = allowed_calls bs

unfoldable pub total : List ℕ → ℕ
total [] = 0
total (w ∷ ws) = w + total ws

module _ (key : String) (limit window : ℕ) where
  -- a call in the window that a counter has left
  check_counted :
      (now n ends : ℕ) (r : Redis)
      → r.rates key ≡ some (record { count = n; expires_at = some ends })
      → 0 < n
      → now < ends
      → let (allowed, r') = check_rate_limit now key limit window r in
        (allowed ≡ leb (suc n) limit)
        × (r'.rates key ≡ some (record { count = suc n; expires_at = some ends }))
  unfolding check_rate_limit count_call incr live_counter
  check_counted now n ends r seen some_yet live = (ground arith, ground (arith, str_eq_refl key))

  -- the first call of a window
  check_first :
      (now : ℕ) (r : Redis)
      → live_counter now (r.rates key) ≡ none
      → let (allowed, r') = check_rate_limit now key limit window r in
        (allowed ≡ leb 1 limit)
        × (r'.rates key ≡ some (record { count = 1; expires_at = some (now + window) }))
  unfolding check_rate_limit count_call incr
  check_first now r none_yet = (ground arith, ground (arith, str_eq_refl key))

  -- how many more calls pass, when `n` have been counted
  passes : ℕ → ℕ → ℕ
  passes n calls = if leb (n + calls) limit then calls else limit - n

  check_all-counted :
      (now n ends : ℕ) (ws : List ℕ) (r : Redis)
      → r.rates key ≡ some (record { count = n; expires_at = some ends })
      → 0 < n
      → now + total ws < ends
      → allowed_calls (check_all key limit window ws now r) ≡ passes n (length ws)
  unfolding check_all allowed_calls total passes
  check_all-counted now n ends [] r seen some_yet live = ground arith
  check_all-counted now n ends (w ∷ ws) r seen some_yet live =
      let (_, r') = check_rate_limit (now + w) key limit window r in
      ground (
        arith,
        check_counted (now + w) n ends r seen some_yet,
        check_all-counted (now + w) (suc n) ends ws r',
      )

  -- Of the calls within one window, from the first call with no live counter on, exactly the first
  -- `limit` pass.
  pub check_all-window :
      (now : ℕ) (ws : List ℕ) (r : Redis)
      → live_counter now (r.rates key) ≡ none
      → total ws < window
      → let calls = length (now ∷ ws) in
        allowed_calls (check_all key limit window (0 ∷ ws) now r)
        ≡ (if leb calls limit then calls else limit)
  unfolding check_all allowed_calls passes
  check_all-window now ws r none_yet short =
      let start : now + 0 ≡ now = omega arith in
      let (_, r') = check_rate_limit (now + 0) key limit window r in
      ground (
        arith,
        check_first (now + 0) r (rw start none_yet),
        check_all-counted (now + 0) 1 (now + 0 + window) ws r',
      )
