-- ===== src/Cube/Run/Tests.antt =====
-- Runs of small scripts, and instances of the theorems on runs.
use toyhoodle.Prelude.{ℕ, Option, ◌≡◌, refl, false, none, some, List, [], ◌∷◌, map}
use toyhoodle.Cube.ParamChange.{
  Text, at, index_of, param_name, get_end_index, first_of, replacement, replace, replace_from,
}
use toyhoodle.Cube.Text.{codes}
use toyhoodle.Cube.Compile.{compile}
use toyhoodle.Cube.Compile.Names.{
  Actions, nil, cons, if_, query, assignment, foreach, string, table, intgert,
}
use toyhoodle.Cube.Compile.State.{compiled, Compiler}
use toyhoodle.Cube.Compile.Tests.{connect, program}
use toyhoodle.Cube.Run.Values.{
  null, set_at, text, Row, cell, rows, Library, no_index, if_can_not, Runner, done, raised,
}
use toyhoodle.Cube.Run.{put_entries, main, ran}
use toyhoodle.Cube.Run.Rows.{put_entries-set_all}

run_program : Unit {0}
unfolding main program set_at
run_program = tt

-- Every query gives two rows of one column; no function is known.
abbrev two_rows : List Row
two_rows =
    ((codes "n", some (text (codes "7"))) ∷ []) ∷ ((codes "n", some (text (codes "12"))) ∷ []) ∷ []

abbrev library : Library
library = record {
  query = λ sent connection sql. some (some two_rows);
  call = λ name arguments. none;
  show = λ v. codes "?";
  same = λ v w. false;
}

-- The last row whose number is more than 10.
abbrev script : List Text
script = map codes (
    "[DATASOURCE]" ∷ "impala jdbc:hive2://ip Driver" ∷ "[PARAM]" ∷ "@n TYPEAS int"
    ∷ "@last TYPEAS string" ∷ "[ACTION]" ∷ "QUERY impala AS Rows" ∷ "SELECT n" ∷ "ENDQUERY"
    ∷ "FOREACH Rows @n" ∷ "IF @n > 10" ∷ "@last = @n" ∷ "ENDIF" ∷ "ENDFOREACH" ∷ [])

abbrev left : Runner
left = record {
  values = cell (text (codes "12")) ∷ cell (text (codes "12")) ∷ rows two_rows ∷ [];
  sent = (8, codes " SELECT n ") ∷ [];
}

script_run : main library connect 20 script ≡ ran (done tt left)
unfolding run_program
script_run = refl

-- The operators `<`, `>=` and `<=` are refused.
abbrev less : List Text
less = map codes ("[ACTION]" ∷ "IF 1 < 2" ∷ "ENDIF" ∷ [])

less_run : main library connect 20 less ≡ ran (raised if_can_not)
unfolding run_program
less_run = refl

-- A row with a column more than there are parameters.
abbrev wide : Row
wide = (codes "a", some (text (codes "1"))) ∷ (codes "b", none) ∷ []

put_entries-set_all_example : put_entries (0 ∷ []) 0 wide left ≡ raised no_index
put_entries-set_all_example = put_entries-set_all (0 ∷ []) wide left

abbrev actions : Actions
actions = cons (query (codes " SELECT n ") (some 8) (some 2)) (
    cons
      (foreach 2 (0 ∷ [])
        (cons (if_ (codes "@n > 10") (cons (assignment 1 (codes "@n")) nil) nil) nil))
      nil)

abbrev compiler : Compiler
compiler = record {
  lines = [];
  exe = record {
    store = intgert ∷ string ∷ table ∷ [];
    params = (codes "Rows", 2) ∷ (codes "@last", 1) ∷ (codes "@n", 0) ∷ [];
    connections = (codes "impala", 8) ∷ [];
  };
}

script_compiled : compile connect script ≡ compiled actions compiler
unfolding run_program
script_compiled = refl

-- A database that the first query empties: the second query gives no rows.
abbrev emptied : List (ℕ × Text) → Option (Option (List Row))
emptied [] = some (some two_rows)
emptied (s ∷ sent) = some none

abbrev once : Library
once = record library { query = λ sent connection sql. emptied sent }

abbrev twice : List Text
twice = map codes (
    "[DATASOURCE]" ∷ "impala jdbc:hive2://ip Driver" ∷ "[ACTION]" ∷ "QUERY impala AS Rows"
    ∷ "SELECT n" ∷ "ENDQUERY" ∷ "QUERY impala AS More" ∷ "SELECT n" ∷ "ENDQUERY" ∷ [])

twice_run :
    main once connect 20 twice
    ≡ ran (
        done tt (record {
          values = rows two_rows ∷ null ∷ [];
          sent = (8, codes " SELECT n ") ∷ (8, codes " SELECT n ") ∷ [];
        }))
unfolding run_program
twice_run = refl

-- A query with the name of a parameter, and a database that refuses texts with an `@`.
abbrev named : List Text
named = map codes (
    "[DATASOURCE]" ∷ "impala jdbc:hive2://ip Driver" ∷ "[PARAM]" ∷ "@n TYPEAS string" ∷ "[ACTION]"
    ∷ "@n = 7" ∷ "QUERY impala" ∷ "SELECT @n" ∷ "ENDQUERY" ∷ [])

named_run :
    main library connect 20 named
    ≡ ran (
        done tt
          (record { values = cell (text (codes "7")) ∷ []; sent = (8, codes " SELECT '7' ") ∷ [] }))
unfolding run_program param_name get_end_index first_of replacement replace replace_from
named_run = refl

abbrev unnamed : Option ℕ → Option (Option (List Row))
unnamed none = some (some two_rows)
unnamed (some i) = none

abbrev refusing : List (ℕ × Text) → ℕ → Text → Option (Option (List Row))
refusing sent connection sql = unnamed (index_of at sql)
