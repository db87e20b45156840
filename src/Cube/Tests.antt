-- ===== src/Cube/Tests.antt =====
-- Runs of the replacement of parameters, and instances of the theorems.
use toyhoodle.Prelude.{
  ◌<◌, ◌≡◌, refl, ◌∙◌, sym, ap, true, false, Option, none, some, [], ◌∷◌, arith, drop,
}
use toyhoodle.Cube.ParamChange.{
  Text, at, Param, changed, not_definition, null_pointer, no_end, index_of, first_of, get_end_index,
  param_name, is_prefix, replace_from, replace, replacement, param_change,
}
use toyhoodle.Cube.ParamChange.Names.{count}
use toyhoodle.Cube.ParamChange.Termination.{HasPlainValues, IsSettled, param_change-IsSettled}
use toyhoodle.Cube.ParamChange.OwnName.{param_change-own_name}

program : Unit {0}
unfolding index_of first_of get_end_index param_name is_prefix replace_from replace replacement
    param_change count
program = tt

-- Every parameter is a string whose value is `1`.
abbrev one : Text → Option Param
one name = some (record { is_string = true; value = some (49 ∷ []) })

abbrev unknown : Text → Option Param
unknown name = none

-- Every parameter has its own name for a value, or null.
abbrev itself : Text → Option Param
itself name = some (record { is_string = false; value = some name })

abbrev nulls : Text → Option Param
nulls name = some (record { is_string = false; value = none })

-- `a=@b,c`
abbrev text : Text
text = 97 ∷ 61 ∷ 64 ∷ 98 ∷ 44 ∷ 99 ∷ []

change_run :
    (param_change 2 one false text ≡ changed (97 ∷ 61 ∷ 49 ∷ 44 ∷ 99 ∷ []))
    × (param_change 2 one true text ≡ changed (97 ∷ 61 ∷ 39 ∷ 49 ∷ 39 ∷ 44 ∷ 99 ∷ []))
    × (param_change 2 unknown true text ≡ not_definition)
    × (param_change 2 nulls true text ≡ null_pointer)
unfolding program
change_run = (refl, refl, refl, refl)

-- `@a @ab`: the value of `@a` also goes into the longer name.
longer_run :
    param_change 3 one false (64 ∷ 97 ∷ 32 ∷ 64 ∷ 97 ∷ 98 ∷ []) ≡ changed (49 ∷ 32 ∷ 49 ∷ 98 ∷ [])
unfolding program
longer_run = refl

one-HasPlainValues : HasPlainValues one
unfolding index_of
one-HasPlainValues name p v e f = ground arith

text_few : count at text < 2
unfolding count
text_few = omega arith

param_change-IsSettled_example : IsSettled (param_change 2 one true text)
param_change-IsSettled_example = param_change-IsSettled 2 one true text one-HasPlainValues text_few

text_start : index_of at text ≡ some 2
unfolding program
text_start = refl

text_name : param_name (drop 2 text) ≡ 64 ∷ 98 ∷ []
unfolding program
text_name = refl

abbrev loops : Param
loops = record { is_string = false; value = some (64 ∷ 98 ∷ []) }

text_value : replacement false loops ≡ some (64 ∷ 98 ∷ [])
unfolding replacement
text_value = refl

param_change-own_name_example : param_change 1000 itself false text ≡ no_end
param_change-own_name_example =
    param_change-own_name 1000 itself false text 2 loops text_start (ap itself text_name)
      (text_value ∙ ap some (sym text_name))
