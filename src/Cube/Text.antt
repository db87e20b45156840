-- ===== src/Cube/Text.antt =====
-- What the compiler uses of java.lang.String, on texts as lists of characters: trim, startsWith and
-- equals; and StringUtil.trimSplit, of which every separator is a text that stands for itself.
use Prim.Native.Char.{code}
use mathlib.Core.List.{reverse}
use toyhoodle.Prelude.{
  ℕ, zero, suc, ◌-◌, String, Bool, true, false, ◌&&◌, List, [], ◌∷◌, ◌++◌, map, ◌==◌, leb, length,
  if◌then◌else◌,
}
use toyhoodle.Cube.ParamChange.{Text, is_prefix}

-- The characters of a literal.
abbrev pub codes : String → Text
codes String.[] = []
codes (String.◌∷◌ c s) = code c ∷ codes s

-- `trim` drops the characters up to the space at both ends.
unfoldable pub trim_start : Text → Text
trim_start [] = []
trim_start (c ∷ s) = let rest = trim_start s in if leb c 32 then rest else c ∷ s

unfoldable pub trim : Text → Text
unfolding trim_start
trim s = reverse (trim_start (reverse (trim_start s)))

unfoldable pub text_eq : Text → Text → Bool
text_eq [] [] = true
text_eq (c ∷ s) (d ∷ t) = c == d && text_eq s t
text_eq _ _ = false

-- The pieces between the occurrences of a separator, from left to right; `skip` characters still
-- belong to the last one.
unfoldable pub split_from : Text → ℕ → Text → Text → List Text
unfolding is_prefix
split_from sep skip piece [] = piece ∷ []
split_from sep (suc skip) piece (c ∷ s) = split_from sep skip piece s
split_from sep zero piece (c ∷ s) = elim (is_prefix sep (c ∷ s)) [
  | true ↦ piece ∷ split_from sep (length sep - 1) [] s
  | false ↦ split_from sep 0 (piece ++ (c ∷ [])) s
]

-- The pieces that are not empty.
unfoldable pub non_empty : List Text → List Text
non_empty [] = []
non_empty ([] ∷ pieces) = non_empty pieces
non_empty ((c ∷ s) ∷ pieces) = (c ∷ s) ∷ non_empty pieces

-- `StringUtil.trimSplit`; `split` also drops empty pieces at the end, which go here with the others.
unfoldable pub trim_split : Text → Text → List Text
unfolding trim split_from non_empty
trim_split v sep = non_empty (map trim (split_from sep 0 [] (trim v)))
