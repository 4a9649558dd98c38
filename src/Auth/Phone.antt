-- ===== src/Auth/Phone.antt =====
-- `PhoneNumber` (crates/domain/src/user/value_objects.rs): the texts in E.164 form.
use Prim.Native.Char.{Char, code}
use Prim.Native.String.{String, [], ◌∷◌, len}
use mesty_api.Common.{Bool, true, false, ◌&&◌, leb, if◌then◌else◌, ◌==◌}
use mesty_api.DomainError.{validation, Result, ok, err}

-- `is_ascii_digit`
abbrev pub is_ascii_digit : Char → Bool
is_ascii_digit c = leb 48 (code c) && leb (code c) 57

-- `chars().all(|c| c.is_ascii_digit())`
unfoldable pub all_digits : String → Bool
all_digits [] = true
all_digits (c ∷ s) = is_ascii_digit c && all_digits s

-- `starts_with('+')` and the test of what follows
unfoldable pub is_international : String → Bool
unfolding all_digits
is_international [] = false
is_international (c ∷ s) = code c == 43 && all_digits s

-- the text itself, when it has 8 to 16 bytes: a plus sign and digits
unfoldable pub new_phone : String → Result String
unfolding is_international
new_phone value =
    if is_international value && leb 8 (len value) && leb (len value) 16
    then ok value
    else err (validation "Invalid phone number format (E.164 required): ")
