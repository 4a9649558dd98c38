-- ===== src/Preserves.antt =====
-- What an action keeps, by the theorem on what it does.

use mesty_api.Common.{Bool, true, false, if◌then◌else◌}
use mesty_api.DomainError.{Result, ok, err, Guarded, ◌>>=◌}

abbrev pub Preserves : {S A : Type 0} → (S → Type 0) → (S → Result A × S) → Type 0
Preserves P m = (s : _) → P s → P (m s).1

module _ {S : Type 0} (P : S → Type 0) where
  -- an action that succeeds as `Done` says or changes nothing
  pub Guarded-preserves :
      {A : Type 0} {s : S} {Allowed : Type 0} {Done : A → S → Type 0} (r : Result A × S)
      → Guarded s Allowed Done r
      → (Allowed → (a : A) (t : S) → Done a t → P t)
      → P s
      → P r.1
  Guarded-preserves (ok a, t) (p, q) keeps h = keeps p a t q
  Guarded-preserves (err e, t) (n, same) keeps h = rw same h

  bind_from :
      {A B : Type 0} (f : A → S → Result B × S) (r : Result A) (s : S)
      → P s
      → ((a : A) → Preserves P (f a))
      → P (((λ _. (r, s)) >>= f) s).1
  bind_from f (ok a) s h keeps = keeps a s h
  bind_from f (err e) s h keeps = h

  -- a chain of actions, each of which keeps the property
  pub bind-Preserves :
      {A B : Type 0} (m : S → Result A × S) (f : A → S → Result B × S)
      → Preserves P m
      → ((a : A) → Preserves P (f a))
      → Preserves P (m >>= f)
  bind-Preserves m f first keeps s h = bind_from f (m s).0 (m s).1 (first s h) keeps

  pub either-Preserves :
      {A : Type 0} (b : Bool) (m n : S → Result A × S)
      → Preserves P m
      → Preserves P n
      → Preserves P (if b then m else n)
  either-Preserves true m n first second = first
  either-Preserves false m n first second = second
