-- ===== src/DomainError.antt =====
-- crates/shared/src/error.rs, and the actions of a component: a call reads and writes the
-- component's state and returns a value or an error. What was written before an error stays written.
use mesty_api.Common.{Bool, Option, none, some, String, if◌then◌else◌, ℕ, concat, ◌≡◌, ◌≢◌, refl}

pub data DomainError : Type 0 where
  validation not_found already_exists internal unauthorized bad_request conflict :
      String → DomainError

pub data Result (A : Type 0) : Type 0 where
  ok : A → Result A
  err : DomainError → Result A

abbrev pub Action : Type 0 → Type 0 → Type 0
Action S A = S → Result A × S

module _ {S A : Type 0} where
  abbrev pub pure : A → S → Result A × S
  pure a s = (ok a, s)

  abbrev pub throw : DomainError → S → Result A × S
  throw e s = (err e, s)

  abbrev pub gets : (S → A) → S → Result A × S
  gets f s = (ok (f s), s)

  -- `ok_or_else`
  abbrev pub ok_or : Option A → DomainError → S → Result A × S
  ok_or none e s = (err e, s)
  ok_or (some a) _ s = (ok a, s)

module _ {S : Type 0} where
  abbrev pub modify : (S → S) → S → Result (Unit {0}) × S
  modify f s = (ok tt, f s)

  -- an early `return Err(e)`
  abbrev pub throw_if : Bool → DomainError → S → Result (Unit {0}) × S
  throw_if c e s = (if c then err e else ok tt, s)

infixl 5 ◌>>=◌ ◌>>◌
abbrev pub ◌>>=◌ : {S A B : Type 0} → (S → Result A × S) → (A → S → Result B × S) → S → Result B × S
◌>>=◌ m f s = let (r, s') = m s in elim r [ ok a ↦ f a s' | err e ↦ (err e, s') ]

abbrev pub ◌>>◌ : {S A B : Type 0} → (S → Result A × S) → (S → Result B × S) → S → Result B × S
m >> k = m >>= λ _. k

-- the status of `IntoResponse for ApiError` (crates/api/src/error.rs)
unfoldable pub status_code : DomainError → ℕ
status_code (validation _) = 400
status_code (not_found _) = 404
status_code (already_exists _) = 409
status_code (unauthorized _) = 401
status_code (internal _) = 500
status_code (bad_request _) = 400
status_code (conflict _) = 409

-- `to_string()`, by the `#[error(…)]` attributes
unfoldable pub display : DomainError → String
display (validation m) = concat "Validation error: " m
display (not_found m) = concat "Not found: " m
display (already_exists m) = concat "Already exists: " m
display (internal m) = concat "Internal error: " m
display (unauthorized m) = concat "Unauthorized: " m
display (bad_request m) = concat "Bad request: " m
display (conflict m) = concat "Conflict: " m

-- An action that succeeds exactly if `Allowed`, does `Done` then, and otherwise changes nothing.
abbrev pub Guarded : {S A : Type 0} → S → Type 0 → (A → S → Type 0) → Result A × S → Type 0
Guarded s Allowed Done (ok a, t) = Allowed × Done a t
Guarded s Allowed Done (err _, t) = (¬ Allowed) × (t ≡ s)

module _ {S A : Type 0} (s : S) (Allowed : Type 0) (Done : A → S → Type 0) where
  pub Guarded-ok :
      (r : Result A × S) {a : A} {t : S}
      → r ≡ (ok a, t)
      → Allowed
      → Done a t
      → Guarded s Allowed Done r
  Guarded-ok r e p q = rw e (p, q)

  pub Guarded-err :
      (r : Result A × S) → ((a : A) → r.0 ≢ ok a) → r.1 ≡ s → ¬ Allowed → Guarded s Allowed Done r
  Guarded-err (ok a, t) fails same n = absurd (fails a refl)
  Guarded-err (err x, t) fails same n = (n, same)
