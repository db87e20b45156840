-- ===== src/Cube/Compile/Tests.antt =====
-- Runs of the compiler on small scripts, and instances of its theorems.
use toyhoodle.Prelude.{ℕ, ◌≡◌, ◌≢◌, refl, Option, none, some, List, [], ◌∷◌, map, arith}
use toyhoodle.Cube.ParamChange.{Text, is_prefix}
use toyhoodle.Cube.Text.{codes, trim, trim_split}
use toyhoodle.Cube.Compile.{
  Model, compile_loop, compile, query_loop, head_of, mark_of, model_transform,
}
use toyhoodle.Cube.Compile.Names.{
  index_out_of_bounds, Actions, element, nil, cons, if_, query, assignment, foreach, string, table,
  intgert, Exe, keyword_error, data_type, put_data_base, put_param, put_param_line, get_connection,
  get_param, get_params, query_name, query_header, first_piece, foreach_header, put_assignment,
  put_data_source,
}
use toyhoodle.Cube.Compile.State.{
  Compiler, compiled, failed, no_rounds, read_line, next_line, is_skipped,
}
use toyhoodle.Cube.Compile.Addresses.{HasObjects, AreValid}
use toyhoodle.Cube.Compile.Validity.{compile-AreValid}
use toyhoodle.Cube.Compile.Blocks.{
  Block, if_block, foreach_block, assignment_block, end, block, lines_behind, lines_of, build,
}
use toyhoodle.Cube.Compile.Starts.{at_lines}
use toyhoodle.Cube.Compile.Termination.{compile-ne-no_rounds}
use toyhoodle.Cube.Compile.RoundTrip.{compile_loop-build}

unfoldable pub program : Unit {0}
unfolding element compile read_line next_line trim_split put_data_base put_param head_of
    get_connection query_name query_header get_param query_loop get_params mark_of first_piece
    foreach_header put_assignment put_param_line put_data_source data_type trim is_skipped is_prefix
    model_transform build
program = tt

abbrev pub connect : Text → Text → Option ℕ
connect url driver = some 8

abbrev script : List Text
script = map codes (
    "[DATASOURCE]" ∷ "  impala  jdbc:hive2://ip  Driver " ∷ "[PARAM]" ∷ "  # a comment"
    ∷ "  @A TYPEAS string" ∷ "" ∷ "  @B TYPEAS int" ∷ "[ACTION]" ∷ "QUERY impala AS Rows"
    ∷ " SELECT a" ∷ " FROM t" ∷ "ENDQUERY" ∷ "FOREACH Rows @A,@B" ∷ "  IF @A == 1" ∷ "    @B = 2"
    ∷ "  ELSE" ∷ "    @B = Rows.b" ∷ "  ENDIF" ∷ "ENDFOREACH" ∷ [])

abbrev script_actions : Actions
script_actions = cons (query (codes " SELECT a  FROM t ") (some 8) (some 2)) (
    cons
      (foreach 2 (0 ∷ 1 ∷ []) (
        cons
          (if_ (codes "@A == 1") (cons (assignment 1 (codes "2")) nil)
            (cons (assignment 1 (codes "Rows.b")) nil))
          nil))
      nil)

abbrev script_compiler : Compiler
script_compiler = record {
  lines = [];
  exe = record {
    store = string ∷ intgert ∷ table ∷ [];
    params = (codes "Rows", 2) ∷ (codes "@B", 1) ∷ (codes "@A", 0) ∷ [];
    connections = (codes "impala", 8) ∷ [];
  };
}

script_run : compile connect script ≡ compiled script_actions script_compiler
unfolding program
script_run = refl

-- ELSE with nothing behind it reads ENDIF as an action.
abbrev empty_else : List Text
empty_else = map codes ("[ACTION]" ∷ "IF 1 == 1" ∷ "ELSE" ∷ "ENDIF" ∷ [])

empty_else_run : compile connect empty_else ≡ failed keyword_error
unfolding program
empty_else_run = refl

-- The name of a data source that holds AS is cut in two: the query has another name for its rows.
abbrev as_in_name : List Text
as_in_name = map codes ("[ACTION]" ∷ "QUERY BASE" ∷ "ENDQUERY" ∷ [])

as_in_name_run :
    compile connect as_in_name
    ≡ compiled (cons (query [] none (some 0)) nil) (record {
      lines = [];
      exe = record { store = table ∷ []; params = (codes "E", 0) ∷ []; connections = [] };
    })
unfolding program
as_in_name_run = refl

-- FOREACH with a table and no parameters.
abbrev foreach_alone : List Text
foreach_alone =
    map codes
      ("[ACTION]" ∷ "QUERY impala AS Rows" ∷ "ENDQUERY" ∷ "FOREACH Rows" ∷ "ENDFOREACH" ∷ [])

foreach_alone_run : compile connect foreach_alone ≡ failed index_out_of_bounds
unfolding program
foreach_alone_run = refl

compile-ne-no_rounds_example : compile connect script ≢ no_rounds
compile-ne-no_rounds_example = compile-ne-no_rounds connect script

abbrev names : Exe
names = record {
  store = table ∷ intgert ∷ [];
  params = (codes "Rows", 0) ∷ (codes "@A", 1) ∷ [];
  connections = [];
}

abbrev set_one : Block
set_one = assignment_block (codes "@A = 1")

abbrev each_row : Block
each_row =
    foreach_block (codes "FOREACH Rows @A")
      (block (if_block (codes "IF @A == 2") (block set_one end) (block set_one end)) end)

compile_loop-build_example :
    compile_loop connect 20
      (some Model.action)
      (at_lines (lines_of (block each_row (block set_one end)) []) names)
    ≡ compiled
        (cons
          (foreach 0 (1 ∷ []) (
            cons
              (if_
                (codes "@A == 2")
                (cons (assignment 1 (codes "1")) nil)
                (cons (assignment 1 (codes "1")) nil))
              nil))
          (cons (assignment 1 (codes "1")) nil))
        (at_lines [] names)
unfolding program lines_behind
compile_loop-build_example =
    compile_loop-build connect 20 (block each_row (block set_one end)) names
      (
        (
          (refl, refl),
          refl,
          (((refl, refl), refl, (((refl, refl), refl), tt), (((refl, refl), refl), tt)), tt),
        ),
        (((refl, refl), refl), tt),
      )
      (omega arith)

compile-AreValid_example : HasObjects script_compiler.exe × AreValid 3 script_actions
compile-AreValid_example = compile-AreValid connect script script_actions script_compiler script_run
