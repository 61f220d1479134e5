-- ===== src/Common/Texts.antt =====
-- `String` and `str` as far as the program uses them: trimming, joining and code points.
use Prim.Native.Char.{Char, code}
use Prim.Native.String.{String, [], ◌∷◌}
use Prim.Native.Nat.{ℕ}
use mathlib.Core.Bool.{Bool, true, false, ◌&&◌, ◌||◌}
use mathlib.Core.List.{List}
use catnap.Common.Tests.{◌==◌, eq_nat, leb, if◌then◌else◌}

-- The code points of a text.
abbrev pub codes : String → List ℕ
codes [] = List.[]
codes (c ∷ s) = List.◌∷◌ (code c) (codes s)

-- `char::is_whitespace`: the property White_Space of Unicode.
unfoldable pub is_whitespace : ℕ → Bool
is_whitespace c =
    (leb 9 c && leb c 13)
    || c == 32
    || c == 0x85
    || c == 0xa0
    || c == 0x1680
    || (leb 0x2000 c && leb c 0x200a)
    || c == 0x2028
    || c == 0x2029
    || c == 0x202f
    || c == 0x205f
    || c == 0x3000

unfoldable pub trim_start : String → String
unfolding is_whitespace
trim_start [] = []
trim_start (c ∷ s) = if is_whitespace (code c) then trim_start s else c ∷ s

-- One character in front of a text whose end is trimmed.
abbrev pub cons_trimmed : Char → String → String
cons_trimmed c [] = if is_whitespace (code c) then [] else c ∷ []
cons_trimmed c (d ∷ s) = c ∷ d ∷ s

unfoldable pub trim_end : String → String
unfolding is_whitespace
trim_end [] = []
trim_end (c ∷ s) = cons_trimmed c (trim_end s)

unfoldable pub trim : String → String
unfolding trim_start trim_end
trim s = trim_end (trim_start s)

abbrev pub is_empty : String → Bool
is_empty [] = true
is_empty (c ∷ s) = false

-- `str::starts_with` and `str::contains`, on code points.
unfoldable pub starts_with : List ℕ → List ℕ → Bool
starts_with List.[] cs = true
starts_with (List.◌∷◌ p ps) List.[] = false
starts_with (List.◌∷◌ p ps) (List.◌∷◌ c cs) = let rest = starts_with ps cs in p == c && rest

unfoldable pub contains_text : List ℕ → List ℕ → Bool
unfolding starts_with
contains_text needle List.[] = starts_with needle List.[]
contains_text needle (List.◌∷◌ c cs) =
    let rest = contains_text needle cs in starts_with needle (List.◌∷◌ c cs) || rest
