-- ===== src/Keys/Validation/Spec.antt =====
-- What the checks of crates/api/src/handlers/keys/handlers.rs accept.
use mesty_api.Common.{
  ℕ, ◌≤◌, ◌≡◌, refl, false, String, List, [], ◌∷◌, length, any, All, in_order_comm, arith, ◌↔◌,
}
use mathlib.Core.Option
use mesty_api.Keys.Store.{ℤ, same, OneTimePrekey}
use mesty_api.Keys.Validation.{
  Checked, fine, fault, Crypto, is_negative, check_prekey, validate_from, validate_one_time_prekeys,
  compute_fingerprint,
}

module _ (c : Crypto) where
  -- a key of 32 bytes under an id that is not negative
  pub IsSound : OneTimePrekey → Type 0
  IsSound p =
      (is_negative c p.id ≡ false)
      × (bytes : List ℕ) × (c.decode p.key ≡ fine bytes)
      × (length bytes ≡ 32)

  -- no id is one of `seen`, or occurs again later
  pub AllDistinct : List ℤ → List OneTimePrekey → Type 0
  AllDistinct seen [] = Unit
  AllDistinct seen (p ∷ ps) = (any (λ i. same i p.id) seen ≡ false) × AllDistinct (p.id ∷ seen) ps

  check_prekey-IsSound :
      (seen : List ℤ) (p : OneTimePrekey)
      → check_prekey c seen p ≡ fine tt
      → IsSound p × (any (λ i. same i p.id) seen ≡ false)
  unfolding check_prekey IsSound
  check_prekey-IsSound seen p e = go (c.decode p.key) refl
    where
      go :
          (d : Checked (List ℕ))
          → c.decode p.key ≡ d
          → IsSound p × (any (λ i. same i p.id) seen ≡ false)
      go (fault x) f = ground arith
      go (fine bytes) f = ((ground arith, bytes, f, ground arith), ground arith)

  check_prekey_complete :
      (seen : List ℤ) (p : OneTimePrekey)
      → IsSound p
      → any (λ i. same i p.id) seen ≡ false
      → check_prekey c seen p ≡ fine tt
  unfolding check_prekey IsSound
  check_prekey_complete seen p (sign, bytes, d, size) new = ground arith

  validate_from_iff :
      (seen : List ℤ) (ps : List OneTimePrekey)
      → (validate_from c seen ps ≡ fine tt) ↔ (All IsSound ps × AllDistinct seen ps)
  unfolding validate_from AllDistinct
  validate_from_iff seen [] = ((λ e. (tt, tt)), λ h. refl)
  validate_from_iff seen (p ∷ ps) =
      let (there, back) = validate_from_iff (p.id ∷ seen) ps in
      (
        (λ e.
            let head : check_prekey c seen p ≡ fine tt = ground arith in
            let tail : validate_from c (p.id ∷ seen) ps ≡ fine tt = ground arith in
            let (sound, new) = check_prekey-IsSound seen p head in
            let (sounds, distinct) = there tail in ((sound, sounds), (new, distinct))),
        (λ ((sound, sounds), (new, distinct)).
            ground (arith, check_prekey_complete seen p sound new, back (sounds, distinct))),
      )

  -- `validate_one_time_prekeys` accepts exactly up to 200 prekeys with distinct ids that are not negative
  -- and keys that decode to 32 bytes.
  pub validate_one_time_prekeys_iff :
      (ps : List OneTimePrekey)
      → (validate_one_time_prekeys c ps ≡ fine tt)
        ↔ ((length ps ≤ 200) × All IsSound ps × AllDistinct [] ps)
  unfolding validate_one_time_prekeys
  validate_one_time_prekeys_iff ps = (
    (λ e.
        let tail : validate_from c [] ps ≡ fine tt = ground arith in
        let (sounds, distinct) = (validate_from_iff [] ps).0 tail in
        (ground arith, sounds, distinct)),
    (λ (short, sounds, distinct). ground (arith, (validate_from_iff [] ps).1 (sounds, distinct))),
  )

  -- Both users see the same fingerprint: it does not depend on whose key comes first, and each user's own
  -- key is shown first.
  pub compute_fingerprint_comm :
      (key1 key2 : String)
      → compute_fingerprint c key2 key1
        ≡ Option.map (λ (f, a, b). (f, b, a)) (compute_fingerprint c key1 key2)
  unfolding compute_fingerprint
  compute_fingerprint_comm key1 key2 = ground (arith, in_order_comm key1 key2)
