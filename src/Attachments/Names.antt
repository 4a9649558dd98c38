-- ===== src/Attachments/Names.antt =====
-- The file names in the keys of the object store: `sanitize_file_name` of
-- crates/api/src/handlers/attachments/handlers.rs.
use Prim.Native.Char.{Char, code}
use Prim.Native.String as Text
use Prim.Native.String.{String}
use mesty_api.Common.{
  ◌≤◌, ◌≡◌, ◌≢◌, ◌⊎◌, ◌↔◌, ◌==◌, leb, ◌∙◌, ap, refl, inl, inr, Bool, true, false, Option, none,
  some, ◌&&◌, is_empty, trim, trim_start, trim_end, is_whitespace, arith, Bool-cases,
}
use mesty_api.Attachments.Handlers.{is_kept, replace_others, sanitize_file_name}

-- an ASCII letter or digit, a dot, an underscore or a dash
abbrev pub IsNameChar : Char → Type 0
IsNameChar c =
    ((code "a" ≤ code c) × (code c ≤ code "z"))
    ⊎ ((code "A" ≤ code c) × (code c ≤ code "Z"))
    ⊎ ((code "0" ≤ code c) × (code c ≤ code "9"))
    ⊎ (code c ≡ code ".")
    ⊎ (code c ≡ code "_")
    ⊎ (code c ≡ code "-")

abbrev pub AllChars : (Char → Type 0) → String → Type 0
AllChars P Text.[] = Unit
AllChars P (Text.◌∷◌ c s) = P c × AllChars P s

-- a name of such characters that is not empty
abbrev pub IsFileName : String → Type 0
IsFileName s = AllChars IsNameChar s × (s ≢ "")

unfoldable all_kept : String → Bool
all_kept Text.[] = true
all_kept (Text.◌∷◌ c s) = is_kept c && all_kept s

is_kept-is_whitespace : (c : Char) → is_kept c ≡ true → is_whitespace c ≡ false
is_kept-is_whitespace c h = ground arith

all_kept-replace_others : (s : String) → all_kept (replace_others s) ≡ true
unfolding all_kept replace_others
all_kept-replace_others Text.[] = refl
all_kept-replace_others (Text.◌∷◌ c s) = elim (Bool-cases (is_kept c)) [
  | inl e ↦ rw (e, e, all_kept-replace_others s) refl
  | inr e ↦ rw (e, all_kept-replace_others s) refl
]

replace_others-all_kept : (s : String) → all_kept s ≡ true → replace_others s ≡ s
unfolding all_kept replace_others
replace_others-all_kept Text.[] h = refl
replace_others-all_kept (Text.◌∷◌ c s) h = ground (arith, replace_others-all_kept s)

trim_end-all_kept : (s : String) → all_kept s ≡ true → trim_end s ≡ s
unfolding all_kept trim_end
trim_end-all_kept Text.[] h = refl
trim_end-all_kept (Text.◌∷◌ c s) h =
    ground (arith, trim_end-all_kept s (ground arith), is_kept-is_whitespace c (ground arith))

trim_start-all_kept : (s : String) → all_kept s ≡ true → trim_start s ≡ s
unfolding all_kept trim_start
trim_start-all_kept Text.[] h = refl
trim_start-all_kept (Text.◌∷◌ c s) h = ground (arith, is_kept-is_whitespace c (ground arith))

is_empty-replace_others : (s : String) → is_empty (replace_others s) ≡ is_empty s
unfolding replace_others is_empty
is_empty-replace_others Text.[] = refl
is_empty-replace_others (Text.◌∷◌ c s) = refl

is_kept-IsNameChar : (c : Char) → is_kept c ≡ true → IsNameChar c
is_kept-IsNameChar c h = elim (Bool-cases (leb 97 (code c) && leb (code c) 122)) [
  | inl e ↦ inl (ground arith, ground arith)
  | inr e ↦ inr (elim (Bool-cases (leb 65 (code c) && leb (code c) 90)) [
    | inl f ↦ inl (ground arith, ground arith)
    | inr f ↦ inr (elim (Bool-cases (leb 48 (code c) && leb (code c) 57)) [
      | inl g ↦ inl (ground arith, ground arith)
      | inr g ↦ inr (elim (Bool-cases (code c == 46)) [
        | inl k ↦ inl (ground arith)
        | inr k ↦ inr (elim (Bool-cases (code c == 95)) [
          | inl m ↦ inl (ground arith)
          | inr m ↦ inr (ground arith)
        ])
      ])
    ])
  ])
]

IsNameChar-is_kept : (c : Char) → IsNameChar c → is_kept c ≡ true
IsNameChar-is_kept c (inl h) = ground arith
IsNameChar-is_kept c (inr (inl h)) = ground arith
IsNameChar-is_kept c (inr (inr (inl h))) = ground arith
IsNameChar-is_kept c (inr (inr (inr (inl h)))) = ground arith
IsNameChar-is_kept c (inr (inr (inr (inr (inl h))))) = ground arith
IsNameChar-is_kept c (inr (inr (inr (inr (inr h))))) = ground arith

all_kept-AllChars : (s : String) → all_kept s ≡ true → AllChars IsNameChar s
unfolding all_kept
all_kept-AllChars Text.[] h = tt
all_kept-AllChars (Text.◌∷◌ c s) h =
    (is_kept-IsNameChar c (ground arith), all_kept-AllChars s (ground arith))

AllChars-all_kept : (s : String) → AllChars IsNameChar s → all_kept s ≡ true
unfolding all_kept
AllChars-all_kept Text.[] h = refl
AllChars-all_kept (Text.◌∷◌ c s) (h, hs) =
    ground (arith, IsNameChar-is_kept c h, AllChars-all_kept s hs)

is_empty_iff : (s : String) → (s ≢ "") ↔ (is_empty s ≡ false)
unfolding is_empty
is_empty_iff Text.[] = ((λ n. absurd (n refl)), λ e. absurd (ground (arith, e)))
is_empty_iff (Text.◌∷◌ c s) = ((λ n. refl), λ e same. ground (arith, ap is_empty same))

sanitize_file_name_kept :
    (f : Option String)
    → (all_kept (sanitize_file_name f) ≡ true) × (is_empty (sanitize_file_name f) ≡ false)
unfolding sanitize_file_name all_kept is_empty
sanitize_file_name_kept none = (refl, refl)
sanitize_file_name_kept (some name) = elim (Bool-cases (is_empty (trim name))) [
  | inl e ↦ rw e (refl, refl)
  | inr e ↦ rw e (all_kept-replace_others (trim name), is_empty-replace_others (trim name) ∙ e)
]

sanitize_file_name_same :
    (s : String) → all_kept s ≡ true → is_empty s ≡ false → sanitize_file_name (some s) ≡ s
unfolding sanitize_file_name
sanitize_file_name_same s k e =
    let same : trim s ≡ s = ap trim_end (trim_start-all_kept s k) ∙ trim_end-all_kept s k in
    ground (arith, same, replace_others-all_kept s k)

-- Whatever the name that a client gives, the last part of the object's key is not empty and holds only
-- ASCII letters, digits, dots, underscores and dashes, so no slash; and every name that is such is left
-- as it is.
pub sanitize_file_name-IsFileName :
    (f : Option String) (s : String)
    → IsFileName s
    → IsFileName (sanitize_file_name f) × (sanitize_file_name (some s) ≡ s)
sanitize_file_name-IsFileName f s (chars, filled) =
    let (kept, some_char) = sanitize_file_name_kept f in
    (
      (
        all_kept-AllChars (sanitize_file_name f) kept,
        (is_empty_iff (sanitize_file_name f)).1 some_char,
      ),
      sanitize_file_name_same s (AllChars-all_kept s chars) ((is_empty_iff s).0 filled),
    )
