-- ===== src/Cube/ParamChange.antt =====
-- Analyize.paramChage: the names of parameters in a text are replaced by their values. A text is the
-- list of its characters' codes.
pub mod Names
pub mod Termination
pub mod OwnName
use Prim.Native.Nat.{min}
use toyhoodle.Prelude.{
  ℕ, zero, suc, ◌-◌, Bool, true, false, ◌&&◌, Option, none, some, List, [], ◌∷◌, ◌++◌, ◌==◌, length,
  take, drop, if◌then◌else◌,
}

abbrev pub Text : Type 0
Text = List ℕ

-- `@`, space, comma, closing parenthesis and quote.
abbrev pub at : ℕ
at = 64

abbrev pub space : ℕ
space = 32

abbrev pub comma : ℕ
comma = 44

abbrev pub close : ℕ
close = 41

abbrev pub quote : ℕ
quote = 39

-- A Param, whose `dataType` is String or another one, and whose value is null or has a text.
pub record Param : Type 0 where
  pub is_string : Bool
  pub value : Option Text

-- The result, or how the call ends otherwise.
pub data Change : Type 0 where
  changed : Text → Change
  not_definition null_pointer no_end : Change

-- `indexOf` of a character.
unfoldable pub index_of : ℕ → Text → Option ℕ
index_of c [] = none
index_of c (x ∷ s) = elim (x == c) [
  | true ↦ some 0
  | false ↦ elim (index_of c s) [ none ↦ none | some i ↦ some (suc i) ]
]

-- The first element of the set, which does not contain -1.
unfoldable pub first_of : Option ℕ → Option ℕ → Option ℕ
first_of none j = j
first_of (some i) none = some i
first_of (some i) (some j) = some (min i j)

-- `getEndIndex`, on the text from the start index on.
unfoldable pub get_end_index : Text → Option ℕ
get_end_index s = first_of (first_of (index_of space s) (index_of comma s)) (index_of close s)

-- The name at the start of a text.
unfoldable pub param_name : Text → Text
param_name s = elim (get_end_index s) [ none ↦ s | some n ↦ take n s ]

unfoldable pub is_prefix : Text → Text → Bool
is_prefix [] s = true
is_prefix (c ∷ t) [] = false
is_prefix (c ∷ t) (x ∷ s) = elim (x == c) [ true ↦ is_prefix t s | false ↦ false ]

-- `replace` of a text that is not empty, after as many characters as still belong to a match.
unfoldable pub replace_from : ℕ → Text → Text → Text → Text
replace_from skip target value [] = []
replace_from (suc skip) target value (c ∷ s) = replace_from skip target value s
replace_from zero target value (c ∷ s) = elim (is_prefix target (c ∷ s)) [
  | true ↦ value ++ replace_from (length target - 1) target value s
  | false ↦ c ∷ replace_from 0 target value s
]

unfoldable pub replace : Text → Text → Text → Text
replace target value s = replace_from 0 target value s

-- The text that stands for a parameter: in a query a string is quoted, and is `null` if it is null.
unfoldable pub replacement : Bool → Param → Option Text
replacement is_sql p =
    if is_sql && p.is_string
    then some
        (quote ∷ (elim p.value [ none ↦ 110 ∷ 117 ∷ 108 ∷ 108 ∷ [] | some v ↦ v ] ++ quote ∷ []))
    else p.value

-- `paramChage`, by rounds; `params` is the map of `Exe`.
unfoldable pub param_change : ℕ → (Text → Option Param) → Bool → Text → Change
param_change zero params is_sql s = no_end
param_change (suc rounds) params is_sql s = elim (index_of at s) [
  | none ↦ changed s
  | some start ↦
      let name = param_name (drop start s) in
      elim (params name) [
        | none ↦ not_definition
        | some p ↦ elim (replacement is_sql p) [
          | none ↦ null_pointer
          | some v ↦ param_change rounds params is_sql (replace name v s)
        ]
      ]
]
