-- ===== src/Messages/Listing/Positions.antt =====
-- The order of the positions of messages, and the rows past a cursor: list_messages of
-- crates/infrastructure/src/repositories/chat.rs.
use mesty_api.Common.{
  ℕ, ◌≡◌, ◌≢◌, ◌⊎◌, inl, inr, Bool, true, false, Option, none, some, List, [], ◌∷◌, ◌++◌, All,
  Sorted, Comparable, subst, Bool-cases, select_where, order_with, arith, All-map, All-select_where,
  select_where-both, order_with-Sorted, order_with-select_where, select_where-past, ◌∙◌, ap, refl,
}
use mesty_api.Messages.Store.{Message, Store}
use mesty_api.Messages.Listing.{
  MessageCursor, MessageDirection, before, after, position, is_earlier, is_past, is_listed,
  goes_first, matching,
}

-- the primary key of `messages`
abbrev pub Distinct : List Message → Type 0
Distinct [] = Unit
Distinct (m ∷ ms) = All (λ (n : Message). m.id ≢ n.id) ms × Distinct ms

is_earlier_trans :
    (a b c : MessageCursor) → is_earlier a b ≡ true → is_earlier b c ≡ true → is_earlier a c ≡ true
is_earlier_trans a b c p q = ground arith

is_earlier_asym : (a b : MessageCursor) → is_earlier a b ≡ true → is_earlier b a ≡ false
is_earlier_asym a b p = ground arith

is_earlier_irrefl : (a : MessageCursor) → is_earlier a a ≡ false
is_earlier_irrefl a = ground arith

is_earlier_total :
    (m n : Message)
    → m.id ≢ n.id
    → (is_earlier (position m) (position n) ≡ true) ⊎ (is_earlier (position n) (position m) ≡ true)
is_earlier_total m n d = ground arith

goes_first_trans :
    (d : MessageDirection) (x y z : Message)
    → goes_first d x y ≡ true
    → goes_first d y z ≡ true
    → goes_first d x z ≡ true
goes_first_trans before x y z p q = is_earlier_trans (position z) (position y) (position x) q p
goes_first_trans after x y z p q = is_earlier_trans (position x) (position y) (position z) p q

goes_first_asym :
    (d : MessageDirection) (x y : Message) → goes_first d x y ≡ true → goes_first d y x ≡ false
goes_first_asym before x y p = is_earlier_asym (position y) (position x) p
goes_first_asym after x y p = is_earlier_asym (position x) (position y) p

goes_first_irrefl : (d : MessageDirection) (x : Message) → goes_first d x x ≡ false
goes_first_irrefl before x = is_earlier_irrefl (position x)
goes_first_irrefl after x = is_earlier_irrefl (position x)

goes_first_total :
    (d : MessageDirection) (m n : Message)
    → m.id ≢ n.id
    → (goes_first d m n ≡ true) ⊎ (goes_first d n m ≡ true)
goes_first_total before m n e = ground (arith, is_earlier_total m n e)
goes_first_total after m n e = is_earlier_total m n e

Distinct-Comparable :
    (d : MessageDirection) (ms : List Message) → Distinct ms → Comparable (goes_first d) ms
Distinct-Comparable d [] h = tt
Distinct-Comparable d (m ∷ ms) (h, hs) =
    (All-map _ _ ms (λ n e. goes_first_total d m n e) h, Distinct-Comparable d ms hs)

Distinct-select_where :
    (p : Message → Bool) (ms : List Message) → Distinct ms → Distinct (select_where p ms)
Distinct-select_where p [] h = tt
Distinct-select_where p (m ∷ ms) (h, hs) = elim (Bool-cases (p m)) [
  | inl e ↦ rw e (All-select_where _ p ms h, Distinct-select_where p ms hs)
  | inr e ↦ rw e (Distinct-select_where p ms hs)
]

module _ (c : ℕ) (d : MessageDirection) (s : Store) (distinct : Distinct s.messages) where
  -- every message of the chat that is not deleted, in the order of the direction
  abbrev pub timeline : List Message
  timeline = order_with (goes_first d) (select_where (is_listed c) s.messages)

  pub timeline-Sorted : Sorted (goes_first d) timeline
  timeline-Sorted =
      order_with-Sorted (goes_first d) (goes_first_trans d) (goes_first_asym d)
        (select_where (is_listed c) s.messages)
        (Distinct-Comparable d _ (Distinct-select_where (is_listed c) s.messages distinct))

  -- the query is a test over the timeline
  pub matching-timeline :
      (cursor : Option MessageCursor)
      → matching c cursor d s ≡ select_where (is_past d cursor) timeline
  matching-timeline cursor =
      ap (order_with (goes_first d)) (select_where-both (is_listed c) (is_past d cursor) s.messages)
      ∙ order_with-select_where (goes_first d) (goes_first_trans d) (goes_first_asym d)
          (is_past d cursor) (select_where (is_listed c) s.messages)
          (Distinct-Comparable d _ (Distinct-select_where (is_listed c) s.messages distinct))

  select_all : (ms : List Message) → select_where (is_past d none) ms ≡ ms
  select_all [] = refl
  select_all (m ∷ ms) = ap (◌∷◌ m) (select_all ms)

  -- without a cursor: the whole timeline
  pub matching-none : matching c none d s ≡ timeline
  matching-none = matching-timeline none ∙ select_all timeline

  is_past-position :
      (d : MessageDirection) (m n : Message) → is_past d (some (position m)) n ≡ goes_first d m n
  is_past-position before m n = refl
  is_past-position after m n = refl

  same_rows :
      (m : Message) (ns : List Message)
      → select_where (is_past d (some (position m))) ns ≡ select_where (goes_first d m) ns
  same_rows m [] = refl
  same_rows m (n ∷ ns) = ground (arith, is_past-position d m n, same_rows m ns)

  -- with the cursor of a message: what stands behind it in the timeline
  pub matching-behind :
      (front : List Message) (m : Message) (rest : List Message)
      → timeline ≡ front ++ m ∷ rest
      → matching c (some (position m)) d s ≡ rest
  matching-behind front m rest e =
      matching-timeline (some (position m))
      ∙ same_rows m timeline
      ∙ ap (select_where (goes_first d m)) e
      ∙ select_where-past (goes_first d) (goes_first_trans d) (goes_first_asym d) front m rest
          (goes_first_irrefl d m) (subst (Sorted (goes_first d)) e timeline-Sorted)
