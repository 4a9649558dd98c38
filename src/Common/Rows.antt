-- ===== src/Common/Rows.antt =====
-- A table of a database as the list of its rows.
use Prim.Native.Nat.{ℕ, suc, ◌≤◌}
use mathlib.Core.Bool.{Bool, true, false, ◌||◌, ◌&&◌}
use mathlib.Core.Option.{Option, none, some}
use mathlib.Core.List.{List, [], ◌∷◌}
use mesty_api.Common.Tests.{leb, if◌then◌else◌, is_some, Bool-cases}
use mathlib.Core.Path.{◌≡◌, refl, sym, ap, subst}
use mathlib.Core.Logic.{inl, inr}
use native.Mathlib.Omega.{arith}

module _ {ℓ} {A : Type ℓ} where
  abbrev pub length : List A → ℕ
  length [] = 0
  length (_ ∷ xs) = suc (length xs)

  -- `SELECT EXISTS (… WHERE p)`
  abbrev pub any : (A → Bool) → List A → Bool
  any p [] = false
  any p (x ∷ xs) = p x || any p xs

  abbrev pub all : (A → Bool) → List A → Bool
  all p [] = true
  all p (x ∷ xs) = p x && all p xs

  -- `SELECT … WHERE p`, the first row if there is one
  abbrev pub find? : (A → Bool) → List A → Option A
  find? p [] = none
  find? p (x ∷ xs) = if p x then some x else find? p xs

  -- `SELECT COUNT(*) … WHERE p`
  abbrev pub count : (A → Bool) → List A → ℕ
  count p [] = 0
  count p (x ∷ xs) = if p x then suc (count p xs) else count p xs

  -- `UPDATE … SET f WHERE p`
  abbrev pub update_where : (A → Bool) → (A → A) → List A → List A
  update_where p f [] = []
  update_where p f (x ∷ xs) = (if p x then f x else x) ∷ update_where p f xs

  -- `DELETE … WHERE p`
  abbrev pub delete_where : (A → Bool) → List A → List A
  delete_where p [] = []
  delete_where p (x ∷ xs) = if p x then delete_where p xs else x ∷ delete_where p xs

module _ {ℓ κ} {A : Type ℓ} (P : A → Type κ) where
  abbrev pub All : List A → Type κ
  All [] = Unit
  All (x ∷ xs) = P x × All xs

module _ {ℓ} {A : Type ℓ} where
  pub find?-eq-any : (p : A → Bool) (xs : List A) → is_some (find? p xs) ≡ any p xs
  find?-eq-any p [] = refl
  find?-eq-any p (x ∷ xs) = ground (arith, find?-eq-any p xs)

  -- a row that is found satisfies the test
  pub find?-holds : (p : A → Bool) (xs : List A) (x : A) → find? p xs ≡ some x → p x ≡ true
  find?-holds p [] x e = cc
  find?-holds p (y ∷ xs) x e = ground (arith, find?-holds p xs x)

  -- a row that is found fails every test that no row passes
  pub find?-fails :
      (p q : A → Bool) (xs : List A) (x : A) → find? p xs ≡ some x → any q xs ≡ false → q x ≡ false
  find?-fails p q [] x e none_of = cc
  find?-fails p q (y ∷ xs) x e none_of = ground (arith, find?-fails p q xs x)

  pub count-eq-zero_of_find? : (p : A → Bool) (xs : List A) → find? p xs ≡ none → count p xs ≡ 0
  count-eq-zero_of_find? p [] e = refl
  count-eq-zero_of_find? p (x ∷ xs) e = ground (arith, count-eq-zero_of_find? p xs)

  pub any-eq-false_iff_count : (p : A → Bool) (xs : List A) → any p xs ≡ false → count p xs ≡ 0
  any-eq-false_iff_count p [] e = refl
  any-eq-false_iff_count p (x ∷ xs) e = ground (arith, any-eq-false_iff_count p xs)

  pub length-update_where :
      (p : A → Bool) (f : A → A) (xs : List A) → length (update_where p f xs) ≡ length xs
  length-update_where p f [] = refl
  length-update_where p f (_ ∷ xs) = ap suc (length-update_where p f xs)

module _ {ℓ κ} {A : Type ℓ} (P : A → Type κ) where
  pub All-find? : (p : A → Bool) (xs : List A) {x : A} → All P xs → find? p xs ≡ some x → P x
  All-find? p [] h e = cc
  All-find? p (y ∷ xs) {x} (h, hs) e = elim (Bool-cases (p y)) [
    | inl here ↦ let same : y ≡ x = ground arith in subst P same h
    | inr other ↦ All-find? p xs hs (rw other at e)
  ]

  -- an UPDATE keeps what its SET clause keeps
  pub All-update_where :
      (p : A → Bool) (f : A → A) (xs : List A)
      → ((x : A) → p x ≡ true → P x → P (f x))
      → All P xs
      → All P (update_where p f xs)
  All-update_where p f [] keeps h = tt
  All-update_where p f (x ∷ xs) keeps (h, hs) = (
    elim (Bool-cases (p x)) [ inl e ↦ rw e (keeps x e h) | inr e ↦ rw e h ],
    All-update_where p f xs keeps hs,
  )

module _ {ℓ} {A : Type ℓ} (q : A → Bool) (f : A → A) where
  pub update_where_of_count : (xs : List A) → count q xs ≡ 0 → update_where q f xs ≡ xs
  update_where_of_count [] e = refl
  update_where_of_count (x ∷ xs) e = ground (arith, update_where_of_count xs)

  -- An UPDATE of a single row adds no row to those that `p` counts, if it does not bring that row in.
  pub count-update_where_le :
      (p : A → Bool) (xs : List A) (c : A)
      → count q xs ≤ 1
      → find? q xs ≡ some c
      → (p (f c) ≡ true → p c ≡ true)
      → count p (update_where q f xs) ≤ count p xs
  count-update_where_le p [] c single e keeps = omega arith
  count-update_where_le p (x ∷ xs) c single e keeps = elim (Bool-cases (q x)) [
    | inl here ↦
        let same : x ≡ c = ground arith in
        let rest : update_where q f xs ≡ xs = update_where_of_count xs (ground arith) in
        let only : p (f x) ≡ true → p x ≡ true =
          subst (λ y. p (f y) ≡ true → p y ≡ true) (sym same) keeps in
        rw (here, rest) (ground (arith, only))
    | inr other ↦
        rw other (ground (arith, count-update_where_le p xs c (ground arith) (ground arith) keeps))
  ]

  -- An UPDATE that leaves `p` alone counts the same rows.
  pub count-update_where :
      (p : A → Bool) (xs : List A)
      → ((x : A) → p (f x) ≡ p x)
      → count p (update_where q f xs) ≡ count p xs
  count-update_where p [] keeps = refl
  count-update_where p (x ∷ xs) keeps = ground (arith, keeps x, count-update_where p xs keeps)

module _ {ℓ} {A : Type ℓ} (key : A → ℕ) where
  abbrev pub insert_by : A → List A → List A
  insert_by x [] = x ∷ []
  insert_by x (y ∷ ys) = if leb (key x) (key y) then x ∷ y ∷ ys else y ∷ insert_by x ys

  -- `ORDER BY key ASC`; rows with equal keys stay in the order of the table
  abbrev pub order_by : List A → List A
  order_by [] = []
  order_by (x ∷ xs) = insert_by x (order_by xs)

module _ {ℓ} {A : Type ℓ} where
  -- `SELECT … WHERE p`, every row
  abbrev pub select_where : (A → Bool) → List A → List A
  select_where p [] = []
  select_where p (x ∷ xs) = if p x then x ∷ select_where p xs else select_where p xs

  -- `INSERT … ON CONFLICT (key) DO UPDATE SET f`, where `p` tests for the key of the new row
  abbrev pub upsert : (A → Bool) → A → (A → A) → List A → List A
  upsert p new f xs = if any p xs then update_where p f xs else new ∷ xs

module _ {ℓ} {A : Type ℓ} (q p : A → Bool) (f : A → A) (keeps : (x : A) → q (f x) ≡ q x) where
  -- a test that an update does not touch
  pub any-update_where : (xs : List A) → any q (update_where p f xs) ≡ any q xs
  any-update_where [] = refl
  any-update_where (x ∷ xs) = ground (arith, keeps x, any-update_where xs)
