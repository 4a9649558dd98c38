-- ===== src/Common/Order.antt =====
-- `ORDER BY` and `LIMIT` over the rows of a query.
use Prim.Native.Nat.{ℕ, zero, suc}
use mathlib.Core.Bool.{Bool}
use mathlib.Core.Option.{Option, none, some}
use mathlib.Core.List.{List, [], ◌∷◌}
use mesty_api.Common.Tests.{if◌then◌else◌}

module _ {ℓ} {A : Type ℓ} where
  -- `LIMIT n`
  abbrev pub take : ℕ → List A → List A
  take zero xs = []
  take (suc n) [] = []
  take (suc n) (x ∷ xs) = x ∷ take n xs

  -- `slice::last`
  abbrev pub last : List A → Option A
  last [] = none
  last (x ∷ []) = some x
  last (x ∷ y ∷ ys) = last (y ∷ ys)

module _ {ℓ} {A : Type ℓ} (first : A → A → Bool) where
  -- a row in front of the rows that it goes before
  abbrev pub insert_with : A → List A → List A
  insert_with x [] = x ∷ []
  insert_with x (y ∷ ys) = if first y x then y ∷ insert_with x ys else x ∷ y ∷ ys

  -- `ORDER BY`, where `first x y` says that x goes before y
  abbrev pub order_with : List A → List A
  order_with [] = []
  order_with (x ∷ xs) = insert_with x (order_with xs)
