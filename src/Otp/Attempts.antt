-- ===== src/Otp/Attempts.antt =====
-- How often a one-time code can be tried.
use mesty_api.Common.{
  ℕ, suc, ◌+◌, ◌-◌, ◌<◌, ◌≤◌, ◌≡◌, inl, inr, refl, true, false, String, none, some, List, [], ◌∷◌,
  ltb, leb, if◌then◌else◌, str_eq, str_eq_refl, arith, Option-cases, Bool-cases, length, All,
}
use mesty_api.Otp.{
  matched, invalid, exceeded, not_found, Purpose, Slot, Redis, get, live_counter, incr, verify_slot,
  is_slot, verify_otp_with_limit, verify_otp, store_otp,
}

-- guesses at one slot, each with the time since the one before it
pub guess_all : Purpose → String → List (ℕ × String) → ℕ → Redis → ℕ × Redis
guess_all p x [] now r = (now, r)
guess_all p x ((wait, code) ∷ gs) now r =
    guess_all p x gs (now + wait) (verify_otp (now + wait) p x code r).1

-- After `n` wrong guesses, the last one at `now`: the code is gone or over, or it is there and its
-- counter, which ends with it, has counted them.
pub data Tried (value : String) (expires_at max now n : ℕ) (s : Slot) : Type 0 where
  spent : s.code ≡ none → Tried value expires_at max now n s
  over :
      s.code ≡ some (record { value = value; expires_at = expires_at })
      → expires_at ≤ now
      → Tried value expires_at max now n s
  fresh :
      s.code ≡ some (record { value = value; expires_at = expires_at })
      → s.attempts ≡ none
      → n ≡ 0
      → Tried value expires_at max now n s
  counted :
      s.code ≡ some (record { value = value; expires_at = expires_at })
      → s.attempts ≡ some (record { count = n; expires_at = some expires_at })
      → 0 < n
      → n < max
      → Tried value expires_at max now n s

module _ (value : String) (expires_at max : ℕ) where
  verify_slot-Tried :
      (now wait n : ℕ) (code : String) (s : Slot)
      → str_eq value code ≡ false
      → Tried value expires_at max now n s
      → Tried value expires_at max (now + wait) (suc n) (verify_slot (now + wait) code max s).1
  unfolding verify_slot get incr live_counter
  verify_slot-Tried now wait n code s wrong (spent gone) = spent (ground arith)
  verify_slot-Tried now wait n code s wrong (over here late) = over (ground arith) (ground arith)
  verify_slot-Tried now wait n code s wrong (fresh here none_yet start) =
      elim (Bool-cases (ltb (now + wait) expires_at)) [
        | inl live ↦ elim (Bool-cases (leb max 1)) [
          | inl last ↦ spent (ground arith)
          | inr more ↦ counted (ground arith) (ground arith) (ground arith) (ground arith)
        ]
        | inr late ↦ over (ground arith) (ground arith)
      ]
  verify_slot-Tried now wait n code s wrong (counted here seen some_yet low) =
      elim (Bool-cases (ltb (now + wait) expires_at)) [
        | inl live ↦ elim (Bool-cases (leb max (suc n))) [
          | inl last ↦ spent (ground arith)
          | inr more ↦ counted (ground arith) (ground arith) (ground arith) (ground arith)
        ]
        | inr late ↦ over (ground arith) (ground arith)
      ]

module _ (p : Purpose) (x : String) where
  same_slot : is_slot p x p x ≡ true
  same_slot = ground (arith, str_eq_refl x)

  -- what a verification answers, and what it leaves at its own slot
  verify_otp_lem :
      (now : ℕ) (code : String) (r : Redis)
      → ((verify_otp now p x code r).0 ≡ (verify_slot now code 3 (r.slots p x)).0)
        × ((verify_otp now p x code r).1.slots p x ≡ (verify_slot now code 3 (r.slots p x)).1)
  unfolding verify_otp verify_otp_with_limit
  verify_otp_lem now code r = (refl, ground (arith, same_slot))

  abbrev after : List (ℕ × String) → ℕ → Redis → Slot
  after gs now r = (guess_all p x gs now r).1.slots p x

  guess_all-Tried :
      (value : String) (expires_at now n m : ℕ) (gs : List (ℕ × String)) (r : Redis)
      → All (λ g. str_eq value g.1 ≡ false) gs
      → m ≡ length gs + n
      → Tried value expires_at 3 now n (r.slots p x)
      → Tried value expires_at 3 (guess_all p x gs now r).0 m (after gs now r)
  unfolding guess_all
  guess_all-Tried value expires_at now n m [] r wrong e h =
      let none_left : m ≡ n = ground arith in rw none_left h
  guess_all-Tried value expires_at now n m ((wait, code) ∷ gs) r (w, wrong) e h =
      let next = (verify_otp (now + wait) p x code r).1 in
      let (_, slot) = verify_otp_lem (now + wait) code r in
      guess_all-Tried value expires_at (now + wait) (suc n) m gs next wrong (ground arith)
        (rw slot (verify_slot-Tried value expires_at 3 now wait n code (r.slots p x) w h))

  -- a slot with no code answers that there is none
  absent :
      (now : ℕ) (code : String) (r : Redis)
      → (r.slots p x).code ≡ none
      → (verify_otp now p x code r).0 ≡ not_found
  unfolding verify_slot get
  absent now code r gone = ground (arith, verify_otp_lem now code r)

  guess_all-absent :
      (now : ℕ) (gs : List (ℕ × String)) (r : Redis)
      → (r.slots p x).code ≡ none
      → (after gs now r).code ≡ none
  unfolding guess_all verify_slot get
  guess_all-absent now [] r gone = gone
  guess_all-absent now ((wait, code) ∷ gs) r gone =
      guess_all-absent (now + wait) gs (verify_otp (now + wait) p x code r).1
        (ground (arith, verify_otp_lem (now + wait) code r))

  over_late :
      (value : String) (expires_at now n wait : ℕ) (code : String) (r : Redis)
      → Tried value expires_at 3 now n (r.slots p x)
      → 3 ≤ n
      → (verify_otp (now + wait) p x code r).0 ≡ not_found
  unfolding verify_slot get
  over_late value expires_at now n wait code r (spent gone) many = absent (now + wait) code r gone
  over_late value expires_at now n wait code r (over here late) many =
      ground (arith, verify_otp_lem (now + wait) code r)
  over_late value expires_at now n wait code r (fresh here none_yet start) many = ground arith
  over_late value expires_at now n wait code r (counted here seen some_yet low) many = ground arith

  -- After three or more wrong guesses at a new code that has no counter yet, at whatever times, every
  -- code is answered with not found, the right one too, until another code is stored.
  pub guess_all-lockout :
      (value : String) (expires_at now wait : ℕ) (gs : List (ℕ × String)) (code : String)
      (r : Redis)
      → r.slots p x ≡ record {
        code = some (record { value = value; expires_at = expires_at });
        attempts = none;
      }
      → All (λ g. str_eq value g.1 ≡ false) gs
      → 3 ≤ length gs
      → let (t, r') = guess_all p x gs now r in (verify_otp (t + wait) p x code r').0 ≡ not_found
  guess_all-lockout value expires_at now wait gs code r start wrong many =
      over_late value expires_at (guess_all p x gs now r).0 (length gs + 0) wait code
        (guess_all p x gs now r).1
        (guess_all-Tried value expires_at now 0 (length gs + 0) gs r wrong refl
          (fresh (rw start refl) (rw start refl) refl))
        (ground arith)

  matched_clears :
      (now : ℕ) (code : String) (s : Slot)
      → (verify_slot now code 3 s).0 ≡ matched
      → (verify_slot now code 3 s).1.code ≡ none
  unfolding verify_slot
  matched_clears now code s hit = elim (Option-cases (get now s.code)) [
    | inl e ↦ ground arith
    | inr (c, e) ↦ elim (Bool-cases (str_eq c.value code)) [
      | inl right ↦ ground arith
      | inr wrong ↦ ground arith
    ]
  ]

  -- A code is used up by the guess that it matches: whatever is tried afterwards, at whatever times, is
  -- answered with not found, until another code is stored.
  pub verify_otp-once :
      (now wait : ℕ) (gs : List (ℕ × String)) (code code' : String) (r : Redis)
      → (verify_otp now p x code r).0 ≡ matched
      → let (t, r') = guess_all p x gs now (verify_otp now p x code r).1 in
        (verify_otp (t + wait) p x code' r').0 ≡ not_found
  verify_otp-once now wait gs code code' r hit = absent _ code' _ (
      guess_all-absent now gs (verify_otp now p x code r).1
        (ground (arith, verify_otp_lem now code r, matched_clears now code (r.slots p x))))

  -- A code that is stored again starts with the attempts at the one before it, while their counter lives:
  -- a wrong guess is the next of three.
  pub verify_otp-store_otp :
      (ttl now wait n ends : ℕ) (value code : String) (r : Redis)
      → (r.slots p x).attempts ≡ some (record { count = n; expires_at = some ends })
      → now + wait < ends
      → wait < ttl
      → str_eq value code ≡ false
      → (verify_otp (now + wait) p x code (store_otp ttl now p x value r)).0
        ≡ (if leb 3 (suc n) then exceeded else invalid (3 - suc n))
  unfolding verify_slot get incr live_counter store_otp
  verify_otp-store_otp ttl now wait n ends value code r seen live soon wrong =
      ground (arith, verify_otp_lem (now + wait) code (store_otp ttl now p x value r), same_slot)
