-- ===== src/Otp.antt =====
-- One-time codes and rate limits in Redis: crates/api/src/services/otp.rs and
-- crates/api/src/services/rate_limit.rs. Times are in seconds. The keys `otp:<purpose>:<subject>` and
-- `otp:<purpose>:<subject>:attempts` of one subject are one slot, and the key `rate:<key>` another.
pub mod Attempts
pub mod RateLimit
mod Tests
use mesty_api.Common.{
  suc, ℕ, ◌+◌, ◌-◌, Bool, true, false, String, Option, none, some, ◌&&◌, ◌==◌, ltb, leb,
  if◌then◌else◌, str_eq,
}

pub data OtpVerifyResult : Type 0 where
  matched : OtpVerifyResult
  invalid : (remaining : ℕ) → OtpVerifyResult
  exceeded : OtpVerifyResult
  not_found : OtpVerifyResult

-- the prefixes of the keys
pub data Purpose : Type 0 where
  register login recover two_fa_setup two_fa_login : Purpose

abbrev pub index : Purpose → ℕ
index register = 0
index login = 1
index recover = 2
index two_fa_setup = 3
index two_fa_login = 4

-- a value under SET EX, which is there before its time of expiry
pub record Code : Type 0 where
  pub value : String
  pub expires_at : ℕ

-- a counter under INCR, with a time of expiry once EXPIRE has set one
pub record Counter : Type 0 where
  pub count : ℕ
  pub expires_at : Option ℕ

pub record Slot : Type 0 where
  pub code : Option Code
  pub attempts : Option Counter

-- the slots of the subjects, by purpose, and the counters of `rate:<key>`
pub record Redis : Type 0 where
  pub slots : Purpose → String → Slot
  pub rates : String → Option Counter

-- `GET`
unfoldable pub get : ℕ → Option Code → Option Code
get now none = none
get now (some c) = if ltb now c.expires_at then some c else none

unfoldable pub live_counter : ℕ → Option Counter → Option Counter
live_counter now none = none
live_counter now (some c) = elim c.expires_at [
  | none ↦ some c
  | some t ↦ if ltb now t then some c else none
]

-- `INCR`, which starts at 1 and keeps the time of expiry
unfoldable pub incr : ℕ → Option Counter → Counter
unfolding live_counter
incr now c = elim (live_counter now c) [
  | none ↦ record { count = 1; expires_at = none }
  | some d ↦ record { count = suc d.count; expires_at = d.expires_at }
]

-- `EXPIRE`
abbrev pub expire : ℕ → ℕ → Counter → Counter
expire now ttl c = record { count = c.count; expires_at = some (now + ttl) }

-- the Lua script of `verify_otp_with_limit`, with the TTL of a code that is there
unfoldable pub verify_slot : ℕ → String → ℕ → Slot → OtpVerifyResult × Slot
unfolding get incr live_counter
verify_slot now submitted max s = elim (get now s.code) [
  | none ↦ (not_found, s)
  | some c ↦
      if str_eq c.value submitted
      then (matched, record { code = none; attempts = none })
      else let n = incr now s.attempts in
        let ttl = c.expires_at - now in
        let n' = if n.count == 1 && ltb 0 ttl then expire now ttl n else n in
        if leb max n.count
        then (exceeded, record { code = none; attempts = none })
        else (invalid (max - n.count), record s { attempts = some n' })
]

abbrev pub is_slot : Purpose → String → Purpose → String → Bool
is_slot p x q y = index p == index q && str_eq x y

abbrev pub set_slot : Purpose → String → Slot → Redis → Redis
set_slot p x v r = record r { slots = λ q y. if is_slot p x q y then v else r.slots q y }

unfoldable pub verify_otp_with_limit :
    ℕ → Purpose → String → String → ℕ → Redis → OtpVerifyResult × Redis
unfolding verify_slot
verify_otp_with_limit now p subject submitted max r =
    let (result, v) = verify_slot now submitted max (r.slots p subject) in
    (result, set_slot p subject v r)

-- `verify_register_otp`, `verify_login_otp`, `verify_recover_otp`, `verify_two_fa_setup_otp` and
-- `verify_two_fa_login_otp`
unfoldable pub verify_otp : ℕ → Purpose → String → String → Redis → OtpVerifyResult × Redis
verify_otp now p subject code = verify_otp_with_limit now p subject code 3

-- `store_register_otp` and its kin: `SET key code EX otp_ttl`, which leaves the counter
unfoldable pub store_otp : ℕ → ℕ → Purpose → String → String → Redis → Redis
store_otp otp_ttl now p subject code r =
    set_slot p subject
      (record (r.slots p subject) {
        code = some (record { value = code; expires_at = now + otp_ttl });
      })
      r

-- the Lua script of `check_rate_limit`
unfoldable pub count_call : ℕ → ℕ → Option Counter → ℕ × Counter
unfolding incr live_counter
count_call now window c =
    let n = incr now c in (n.count, if n.count == 1 then expire now window n else n)

unfoldable pub check_rate_limit : ℕ → String → ℕ → ℕ → Redis → Bool × Redis
unfolding count_call
check_rate_limit now key limit window r =
    let (count, c) = count_call now window (r.rates key) in
    (leb count limit, record r { rates = λ k. if str_eq key k then some c else r.rates k })
