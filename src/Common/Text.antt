-- ===== src/Common/Text.antt =====
-- The functions of Rust's `str` that the program uses, on native texts.
use Prim.Native.Nat.{ℕ, ◌+◌, ◌/◌, ◌%◌, compare as compare_ℕ, Ordering}
use Prim.Native.Char.{Char, code}
use Prim.Native.String
use Prim.Native.String.{String, len, find, slice}
use mathlib.Core.Bool.{Bool, true, false, ◌||◌, ◌&&◌}
use mathlib.Core.List.{List, [], ◌∷◌, ◌++◌}
use mathlib.Core.Option.{Option, none, some}
use text.Mathlib.Text.{starts_with}
use holonomy_source.Common.Tests.{leb, ltb, ◌==◌, if◌then◌else◌}

infixl 65 ◌<>◌
-- Concatenation.
abbrev pub ◌<>◌ : String → String → String
s <> t = String.◌++◌ s t

-- `s.contains(t)`: the byte position that `find` gives lies inside `s`.
abbrev pub contains : String → String → Bool
contains s t = leb (find s t) (len s)

-- `s.find(t)`.
abbrev pub find_at : String → String → Option ℕ
find_at s t = if leb (find s t) (len s) then some (find s t) else none

abbrev pub cons : Char → String → String
cons c s = String.◌∷◌ c s

-- The code points with the property White_Space.
abbrev pub is_whitespace : Char → Bool
is_whitespace ch =
    let c = code ch in
    (leb 9 c && leb c 13)
    || c == 32
    || c == 133
    || c == 160
    || c == 5760
    || (leb 8192 c && leb c 8202)
    || c == 8232
    || c == 8233
    || c == 8239
    || c == 8287
    || c == 12288

unfoldable pub trim_start : String → String
trim_start String.[] = ""
trim_start (String.◌∷◌ c s) = let rest = trim_start s in if is_whitespace c then rest else cons c s

unfoldable pub trim_end : String → String
trim_end String.[] = ""
trim_end (String.◌∷◌ c s) =
    let rest = trim_end s in
    elim rest [ String.[] ↦ if is_whitespace c then "" else cons c "" | other ↦ cons c other ]

-- `s.trim()`.
unfoldable pub trim : String → String
unfolding trim_start trim_end
trim s = trim_end (trim_start s)

-- `s.is_empty()`.
abbrev pub is_empty : String → Bool
is_empty String.[] = true
is_empty (String.◌∷◌ c s) = false

-- `s.strip_prefix(t)`.
abbrev pub strip_prefix : String → String → Option String
strip_prefix s t = if starts_with s t then some (slice s (len t) (len s)) else none

-- The UTF-8 bytes of a code point.
abbrev pub utf8_char : ℕ → List ℕ
utf8_char c =
    if ltb c 128
    then c ∷ []
    else if ltb c 2048
    then (192 + c / 64) ∷ (128 + c % 64) ∷ []
    else if ltb c 65536
    then (224 + c / 4096) ∷ (128 + c / 64 % 64) ∷ (128 + c % 64) ∷ []
    else (240 + c / 262144) ∷ (128 + c / 4096 % 64) ∷ (128 + c / 64 % 64) ∷ (128 + c % 64) ∷ []

-- `s.as_bytes()`.
unfoldable pub as_bytes : String → List ℕ
as_bytes String.[] = []
as_bytes (String.◌∷◌ c s) = utf8_char (code c) ++ as_bytes s

-- The order of byte slices.
unfoldable pub bytes_le : List ℕ → List ℕ → Bool
bytes_le [] ys = true
bytes_le (x ∷ xs) [] = false
bytes_le (x ∷ xs) (y ∷ ys) = elim (compare_ℕ x y) [
  | Ordering.lt ↦ true
  | Ordering.eq ↦ bytes_le xs ys
  | Ordering.gt ↦ false
]
