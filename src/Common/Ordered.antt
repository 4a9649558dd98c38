-- ===== src/Common/Ordered.antt =====
-- Rows in a strict order: sorting commutes with a test, and the rows past a row are those behind it.

use mathlib.Core.Bool.{Bool, true, false, ◌&&◌}
use mathlib.Core.List.{List, [], ◌∷◌, ◌++◌}
use mathlib.Core.Path.{◌≡◌, refl}
use mathlib.Core.Logic.{◌⊎◌, inl, inr}
use native.Mathlib.Omega.{arith}
use mesty_api.Common.Tests.{if◌then◌else◌, Bool-cases}
use mesty_api.Common.Rows.{select_where, delete_where, All}
use mesty_api.Common.Order.{insert_with, order_with}

module _ {ℓ} {A : Type ℓ} where
  pub select_where-both :
      (p q : A → Bool) (xs : List A)
      → select_where (λ x. p x && q x) xs ≡ select_where q (select_where p xs)
  select_where-both p q [] = refl
  select_where-both p q (x ∷ xs) = ground (arith, select_where-both p q xs)

  -- a row that a query returns satisfies what every row of the table does
  pub All-select_where {κ} :
      (P : A → Type κ) (p : A → Bool) (xs : List A) → All P xs → All P (select_where p xs)
  All-select_where P p [] h = tt
  All-select_where P p (x ∷ xs) (h, hs) = elim (Bool-cases (p x)) [
    | inl e ↦ rw e (h, All-select_where P p xs hs)
    | inr e ↦ rw e (All-select_where P p xs hs)
  ]

  pub All-delete_where {κ} :
      (P : A → Type κ) (p : A → Bool) (xs : List A) → All P xs → All P (delete_where p xs)
  All-delete_where P p [] h = tt
  All-delete_where P p (x ∷ xs) (h, hs) = elim (Bool-cases (p x)) [
    | inl e ↦ rw e (All-delete_where P p xs hs)
    | inr e ↦ rw e (h, All-delete_where P p xs hs)
  ]

  pub All-map {κ μ} :
      (P : A → Type κ) (Q : A → Type μ) (xs : List A) → ((x : A) → P x → Q x) → All P xs → All Q xs
  All-map P Q [] f h = tt
  All-map P Q (x ∷ xs) f (h, hs) = (f x h, All-map P Q xs f hs)

-- rows each of which goes before those behind it
module _ {ℓ} {A : Type ℓ} (first : A → A → Bool) where
  abbrev pub Sorted : List A → Type ℓ
  Sorted [] = Unit
  Sorted (x ∷ xs) = All (λ y. first x y ≡ true) xs × Sorted xs

  -- rows of which of any two one goes before the other
  abbrev pub Comparable : List A → Type ℓ
  Comparable [] = Unit
  Comparable (x ∷ xs) = All (λ y. (first x y ≡ true) ⊎ (first y x ≡ true)) xs × Comparable xs

module _ {ℓ} {A : Type ℓ} (first : A → A → Bool) where
  All-insert_with {κ} :
      (P : A → Type κ) (x : A) (xs : List A) → P x → All P xs → All P (insert_with first x xs)
  All-insert_with P x [] p h = (p, tt)
  All-insert_with P x (y ∷ ys) p (h, hs) = elim (Bool-cases (first y x)) [
    | inl e ↦ rw e (h, All-insert_with P x ys p hs)
    | inr e ↦ rw e (p, (h, hs))
  ]

  pub All-order_with {κ} : (P : A → Type κ) (xs : List A) → All P xs → All P (order_with first xs)
  All-order_with P [] h = tt
  All-order_with P (x ∷ xs) (h, hs) =
      All-insert_with P x (order_with first xs) h (All-order_with P xs hs)

module _ {ℓ} {A : Type ℓ} (first : A → A → Bool)
    (trans : (x y z : A) → first x y ≡ true → first y z ≡ true → first x z ≡ true)
    (asym : (x y : A) → first x y ≡ true → first y x ≡ false) where
  insert_with-Sorted :
      (x : A) (xs : List A)
      → All (λ y. (first x y ≡ true) ⊎ (first y x ≡ true)) xs
      → Sorted first xs
      → Sorted first (insert_with first x xs)
  insert_with-Sorted x [] c h = (tt, tt)
  insert_with-Sorted x (y ∷ ys) (c, cs) (h, hs) = elim (Bool-cases (first y x)) [
    | inl e ↦ rw e (All-insert_with first _ x ys e h, insert_with-Sorted x ys cs hs)
    | inr e ↦
        let e' : first x y ≡ true = ground arith in
        rw e ((e', All-map _ _ ys (λ z q. trans x y z e' q) h), (h, hs))
  ]

  pub order_with-Sorted : (xs : List A) → Comparable first xs → Sorted first (order_with first xs)
  order_with-Sorted [] c = tt
  order_with-Sorted (x ∷ xs) (c, cs) =
      insert_with-Sorted x (order_with first xs) (All-order_with first _ xs c)
        (order_with-Sorted xs cs)

  -- a row goes in front of rows that it goes before
  insert_with-front :
      (x : A) (xs : List A) → All (λ y. first x y ≡ true) xs → insert_with first x xs ≡ x ∷ xs
  insert_with-front x [] h = refl
  insert_with-front x (y ∷ ys) (h, hs) = ground (arith, asym x y h)

  select_where-insert_with :
      (p : A → Bool) (x : A) (xs : List A)
      → All (λ y. (first x y ≡ true) ⊎ (first y x ≡ true)) xs
      → Sorted first xs
      → select_where p (insert_with first x xs)
        ≡ (if p x then insert_with first x (select_where p xs) else select_where p xs)
  select_where-insert_with p x [] c h = ground arith
  select_where-insert_with p x (y ∷ ys) (c, cs) (h, hs) = elim (Bool-cases (first y x)) [
    | inl e ↦ ground (arith, select_where-insert_with p x ys cs hs)
    | inr e ↦
        let e' : first x y ≡ true = ground arith in
        ground (
          arith,
          insert_with-front x (select_where p ys)
              (All-select_where _ p ys (All-map _ _ ys (λ z q. trans x y z e' q) h)),
        )
  ]

  -- a test before or after sorting
  pub order_with-select_where :
      (p : A → Bool) (xs : List A)
      → Comparable first xs
      → order_with first (select_where p xs) ≡ select_where p (order_with first xs)
  order_with-select_where p [] c = refl
  order_with-select_where p (x ∷ xs) (c, cs) = ground (
    arith,
    order_with-select_where p xs cs,
    select_where-insert_with p x (order_with first xs) (All-order_with first _ xs c)
        (order_with-Sorted xs cs),
  )

  select_where-behind :
      (x : A) (xs : List A) → All (λ y. first x y ≡ true) xs → select_where (first x) xs ≡ xs
  select_where-behind x [] h = refl
  select_where-behind x (y ∷ ys) (h, hs) = ground (arith, select_where-behind x ys hs)

  -- the rows past a row are those behind it
  pub select_where-past :
      (front : List A) (x : A) (rest : List A)
      → first x x ≡ false
      → Sorted first (front ++ x ∷ rest)
      → select_where (first x) (front ++ x ∷ rest) ≡ rest
  select_where-past [] x rest irr (h, hs) = ground (arith, select_where-behind x rest h)
  select_where-past (y ∷ ys) x rest irr (h, hs) =
      ground (arith, asym y x (All-middle ys h), select_where-past ys x rest irr hs)
    where
      All-middle : (zs : List A) → All (λ z. first y z ≡ true) (zs ++ x ∷ rest) → first y x ≡ true
      All-middle [] (q, qs) = q
      All-middle (z ∷ zs) (q, qs) = All-middle zs qs
