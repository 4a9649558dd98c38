-- ===== src/Common/Spaces.antt =====
-- `str::trim`, `is_empty` and `starts_with` on texts.

use Prim.Native.Char.{Char, code}
use Prim.Native.String.{String, [], ◌∷◌}
use mathlib.Core.Bool.{Bool, true, false, ◌&&◌, ◌||◌}
use mesty_api.Common.Tests.{◌==◌, leb, if◌then◌else◌}

-- `char::is_whitespace`: the property White_Space
abbrev pub is_whitespace : Char → Bool
is_whitespace c =
    leb 9 (code c) && leb (code c) 13
    || code c == 32
    || code c == 133
    || code c == 160
    || code c == 5760
    || leb 8192 (code c) && leb (code c) 8202
    || code c == 8232
    || code c == 8233
    || code c == 8239
    || code c == 8287
    || code c == 12288

unfoldable pub is_empty : String → Bool
is_empty [] = true
is_empty (_ ∷ _) = false

unfoldable pub trim_start : String → String
trim_start [] = []
trim_start (c ∷ s) = let rest = trim_start s in if is_whitespace c then rest else c ∷ s

unfoldable pub trim_end : String → String
trim_end [] = []
trim_end (c ∷ s) =
    let rest = trim_end s in if is_empty rest && is_whitespace c then [] else c ∷ rest

abbrev pub trim : String → String
trim s = trim_end (trim_start s)

-- `starts_with('+')`
unfoldable pub starts_with_plus : String → Bool
starts_with_plus [] = false
starts_with_plus (c ∷ _) = code c == 43
