-- ===== src/Common/Texts.antt =====
-- The order of texts.
use Prim.Native.Nat.{ℕ, Ordering, compare as compare_ℕ}
use Prim.Native.Char.{code}
use Prim.Native.String.compare
use Prim.Native.String.{String, [], ◌∷◌, compare, then as lexically}
use mathlib.Core.Path.{◌≡◌, refl, sym, ◌∙◌, ap}
use mathlib.Core.Bool.{true, false}
use native.Mathlib.Omega.{arith}
use text.Mathlib.Text.{is_lt}
use text.Mathlib.TextEquality.{path_by_compare}
use text.Mathlib.TextPositions.{eq_refl}
use text.Mathlib.Text.{◌==◌ as str_eq}

abbrev pub swap : Ordering → Ordering
swap Ordering.lt = Ordering.gt
swap Ordering.eq = Ordering.eq
swap Ordering.gt = Ordering.lt

swap-then : (o r : Ordering) → swap (lexically o r) ≡ lexically (swap o) (swap r)
swap-then Ordering.lt r = refl
swap-then Ordering.eq r = refl
swap-then Ordering.gt r = refl

swap-compare_ℕ : (m n : ℕ) → swap (compare_ℕ m n) ≡ compare_ℕ n m
swap-compare_ℕ m n = ground arith

pub swap-compare : (s t : String) → swap (compare s t) ≡ compare t s
swap-compare [] [] = ap swap compare.nil-nil ∙ sym compare.nil-nil
swap-compare [] (d ∷ t) = ap swap (compare.nil-cons d t) ∙ sym (compare.cons-nil d t)
swap-compare (c ∷ s) [] = ap swap (compare.cons-nil c s) ∙ sym (compare.nil-cons c s)
swap-compare (c ∷ s) (d ∷ t) =
    ap swap (compare.cons-cons c d s t)
    ∙ swap-then (compare_ℕ (code c) (code d)) (compare s t)
    ∙ ap (λ o. lexically o (swap (compare s t))) (swap-compare_ℕ (code c) (code d))
    ∙ ap (lexically (compare_ℕ (code d) (code c))) (swap-compare s t)
    ∙ sym (compare.cons-cons d c t s)

-- the two texts as a comparison orders them
abbrev pub arrange : Ordering → String → String → String × String
arrange o a b = elim (is_lt o) [ true ↦ (a, b) | false ↦ (b, a) ]

-- the smaller of two texts, then the larger one
abbrev pub in_order : String → String → String × String
in_order a b = arrange (compare a b) a b

arrange-swap :
    (o : Ordering) (a b : String) → (o ≡ Ordering.eq → a ≡ b) → arrange o a b ≡ arrange (swap o) b a
arrange-swap Ordering.lt a b same = refl
arrange-swap Ordering.eq a b same = rw (same refl) refl
arrange-swap Ordering.gt a b same = refl

pub in_order_comm : (a b : String) → in_order a b ≡ in_order b a
in_order_comm a b =
    arrange-swap (compare a b) a b (path_by_compare a b)
    ∙ ap (λ o. arrange o b a) (swap-compare a b)

pub str_eq_refl : (s : String) → str_eq s s ≡ true
str_eq_refl = eq_refl
