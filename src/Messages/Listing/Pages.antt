-- ===== src/Messages/Listing/Pages.antt =====
-- The page that list_messages of crates/api/src/handlers/chats/handlers.rs cuts off the rows it fetched.
use mesty_api.Common.{
  ℕ, zero, suc, ◌+◌, ◌≤◌, ◌<◌, ◌≡◌, refl, ap, ◌∙◌, subst, true, false, some, List, [], ◌∷◌, ◌++◌,
  length, take, last, ltb, if◌then◌else◌, arith,
}
use mathlib.Core.List.{reverse, reverse-cons}
use mesty_api.Keys.Store.{ℤ, pos}
use mesty_api.Messages.Listing.{clamp, has_more, truncate}

module _ {A : Type 0} where
  length-take :
      (n : ℕ) (xs : List A) → length (take n xs) ≡ (if ltb n (length xs) then n else length xs)
  length-take zero [] = refl
  length-take zero (x ∷ xs) = ground arith
  length-take (suc n) [] = ground arith
  length-take (suc n) (x ∷ xs) = ground (arith, length-take n xs)

  pub take_all : (n : ℕ) (xs : List A) → length xs ≤ n → take n xs ≡ xs
  take_all zero [] h = refl
  take_all zero (x ∷ xs) h = absurd (omega arith)
  take_all (suc n) [] h = refl
  take_all (suc n) (x ∷ xs) h = ap (◌∷◌ x) (take_all n xs (omega arith))

  take-take : (n : ℕ) (xs : List A) → take n (take (suc n) xs) ≡ take n xs
  take-take zero xs = refl
  take-take (suc n) [] = refl
  take-take (suc n) (x ∷ xs) = ap (◌∷◌ x) (take-take n xs)

  -- with one row more than the limit fetched, the page is right
  pub has_more-take : (n : ℕ) (xs : List A) → has_more n (take (n + 1) xs) ≡ ltb n (length xs)
  has_more-take n xs = ground (arith, length-take (n + 1) xs)

  pub truncate-take : (n : ℕ) (xs : List A) → truncate n (take (n + 1) xs) ≡ take n xs
  truncate-take n xs =
      ground (arith, has_more-take n xs, take-take n xs, take_all n xs, take_all (n + 1) xs)

  -- with no more rows fetched than the limit, there never is another page
  pub has_more-take_le : (n : ℕ) (xs : List A) → has_more n (take n xs) ≡ false
  has_more-take_le n xs = ground (arith, length-take n xs)

  -- where a page ends in the rows that it is cut off
  pub split_page :
      (n : ℕ) (xs : List A)
      → 0 < n
      → n < length xs
      → (front : List A) × (x : A) × (rest : List A) × (xs ≡ front ++ x ∷ rest)
        × (take n xs ≡ front ++ x ∷ [])
        × (last (take n xs) ≡ some x)
        × (take n xs ++ rest ≡ xs)
        × (length rest < length xs)
  split_page zero xs p h = absurd (omega arith)
  split_page (suc n) [] p h = absurd (omega arith)
  split_page (suc zero) (x ∷ xs) p h = ([], x, xs, refl, refl, refl, refl, omega arith)
  split_page (suc (suc n)) (x ∷ []) p h = absurd (omega arith)
  split_page (suc (suc n)) (x ∷ y ∷ ys) p h =
      let (front, z, rest, e, e', l, a, b) =
        split_page (suc n) (y ∷ ys) (omega arith) (omega arith) in
      (x ∷ front, z, rest, ap (◌∷◌ x) e, ap (◌∷◌ x) e', l, ap (◌∷◌ x) a, omega arith)

  length-append : (xs ys : List A) → length (xs ++ ys) ≡ length xs + length ys
  length-append [] ys = omega arith
  length-append (x ∷ xs) ys = omega (arith, length-append xs ys)

  pub length-reverse : (xs : List A) → length (reverse xs) ≡ length xs
  length-reverse [] = refl
  length-reverse (x ∷ xs) =
      rw (reverse-cons x xs, length-append (reverse xs) (x ∷ []), length-reverse xs) (omega arith)

  take-append : (xs ys : List A) → take (length xs) (xs ++ ys) ≡ xs
  take-append [] [] = refl
  take-append [] (y ∷ ys) = refl
  take-append (x ∷ xs) ys = ap (◌∷◌ x) (take-append xs ys)

  -- a page cut off reversed rows loses the first of the rows
  pub truncate-reverse :
      (n : ℕ) (x : A) (xs : List A)
      → n ≤ length xs
      → truncate n (reverse (take (n + 1) (x ∷ xs))) ≡ reverse (take n xs)
  truncate-reverse n x xs h =
      let next : n + 1 ≡ suc n = omega arith in
      let e : reverse (take (n + 1) (x ∷ xs)) ≡ reverse (take n xs) ++ x ∷ [] =
        rw next (reverse-cons x (take n xs)) in
      let l : length (reverse (take n xs)) ≡ n =
        ground (arith, length-reverse (take n xs), length-take n xs) in
      let m : length (reverse (take n xs) ++ x ∷ []) ≡ n + 1 =
        ground (arith, length-append (reverse (take n xs)) (x ∷ []), l) in
      rw e (
        ground (
          arith,
          m,
          subst (λ k. take k (reverse (take n xs) ++ x ∷ []) ≡ reverse (take n xs)) l
              (take-append (reverse (take n xs)) (x ∷ [])),
        ))

module _ {A : Type 0} where
  last-append : (xs : List A) (x : A) → last (xs ++ x ∷ []) ≡ some x
  last-append [] x = refl
  last-append (y ∷ []) x = refl
  last-append (y ∷ z ∷ zs) x = last-append (z ∷ zs) x

  -- the last of reversed rows
  pub last-reverse :
      (n : ℕ) (x : A) (xs : List A) → 0 < n → last (reverse (take n (x ∷ xs))) ≡ some x
  last-reverse zero x xs h = absurd (omega arith)
  last-reverse (suc n) x xs h =
      ap last (reverse-cons x (take n xs)) ∙ last-append (reverse (take n xs)) x

  pub has_more-reverse :
      (n : ℕ) (x : A) (xs : List A)
      → n ≤ length xs
      → has_more n (reverse (take (n + 1) (x ∷ xs))) ≡ true
  has_more-reverse n x xs h =
      ground (arith, length-reverse (take (n + 1) (x ∷ xs)), length-take (n + 1) (x ∷ xs))

-- `clamp` ends between 1 and 50.
pub clamp_bounds : (limit : ℤ) → (1 ≤ clamp limit) × (clamp limit ≤ 50)
clamp_bounds limit = ground arith

pub clamp_next : (n : ℕ) → n < 50 → clamp (pos (n + 1)) ≡ n + 1
clamp_next n h = ground arith
