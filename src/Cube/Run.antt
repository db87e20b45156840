-- ===== src/Cube/Run.antt =====
-- Analyize: the actions of a script run one after the other, on the objects of its parameters.
pub mod Values
pub mod Conditions
pub mod Rows
pub mod Sent
mod Tests
use toyhoodle.Prelude.{
  ℕ, zero, suc, ◌-◌, ◌+◌, Bool, true, false, ◌&&◌, ltb, Option, none, some, List, [], ◌∷◌, ◌++◌,
  drop, take, get_elem?, length, map, if◌then◌else◌,
}
use toyhoodle.Cube.ParamChange.{Text}
use toyhoodle.Cube.Text.{codes}
use toyhoodle.Cube.Compile.Names.{
  Action, Actions, nil, cons, if_, while, query, assignment, foreach, Exe, Failure,
}
use toyhoodle.Cube.Compile.State.{Result, compiled, failed}
use toyhoodle.Cube.Compile.{compile}
use Values.{
  Cell, Row, Value, null, cell, rows, Library, Fault, null_value, no_index, no_cast, no_query,
  no_function, Runner, Outcome, done, raised, no_rounds, R, ◌>>=◌, answer, raise, stop, from,
  nullable, put_value, get_value, split, contains, ends_with,
}
use Conditions.{change, get_param_value, if_analyize}

-- `substring(0, length() - 1)`, which an empty text does not have.
unfoldable pub without_last : Text → Option Text
without_last [] = none
without_last (c ∷ s) = some (take (length s) (c ∷ s))

-- The rows that a value is cast to, to go through them.
unfoldable pub rows_of : Value → R (List Row)
rows_of null = raise null_value
rows_of (cell c) = raise no_cast
rows_of (rows rs) = answer rs

-- The loop over the entries of a row, from its counter on. It stops where the counter is more than the
-- length of the array, and fails where it is that length.
unfoldable pub put_entries : List ℕ → ℕ → Row → R (Unit {0})
put_entries params i [] = answer tt
put_entries params i ((name, c) ∷ row) =
    let more = put_entries params (suc i) row in
    if ltb (length params) i
    then answer tt
    else do a ← from no_index (get_elem? params i); _ ← put_value a (nullable c); more

-- The result of a query, for the name that it has, if any.
abbrev pub put_result : Option ℕ → Value → R (Unit {0})
put_result none v = answer tt
put_result (some a) v = put_value a v

abbrev pub result_of : Option (List Row) → Value
result_of none = null
result_of (some rs) = rows rs

-- The loop over the rows of FOREACH.
module _ (params : List ℕ) (body : R (Unit {0})) where
  unfoldable pub each_row : List Row → R (Unit {0})
  unfolding put_entries
  each_row [] = answer tt
  each_row (row ∷ rs) = do _ ← put_entries params 0 row; _ ← body; each_row rs

module _ (lib : Library) (exe : Exe) where
  -- `JdbcData.query`, which a query without a connection does not reach.
  unfoldable pub send : Option ℕ → Text → R Value
  send none sql r = raised null_value
  send (some connection) sql r = elim (lib.query r.sent connection sql) [
    | none ↦ raised no_query
    | some result ↦ done (result_of result) (record r { sent = (connection, sql) ∷ r.sent })
  ]

  -- A call of a function, by its name and the text behind the parenthesis.
  unfoldable pub call_function : ℕ → Text → R Value
  unfolding split without_last change
  call_function rounds v = do
    let pieces = split (codes "(") v
    name ← from no_index (get_elem? pieces 0)
    piece ← from no_index (get_elem? pieces 1)
    arguments ← from no_index (without_last piece)
    changed ← change lib exe rounds false arguments
    result ← from no_function (lib.call name (split (codes ",") changed))
    answer (nullable result)

  -- `assignmentAnalyize`
  unfoldable pub assignment_analyize : ℕ → Text → R Value
  unfolding call_function contains ends_with get_param_value
  assignment_analyize rounds v =
      if contains 40 v && ends_with 41 v then call_function rounds v else get_param_value lib exe v

  -- `doAnalyize`, over the actions inside the action, and what a WHILE does once more.
  module _ (rounds : ℕ) (run_all : Actions → R (Unit {0})) (again : Action → R (Unit {0})) where
    unfoldable pub analyize : Action → R (Unit {0})
    unfolding if_analyize change send assignment_analyize rows_of each_row
    analyize (if_ condition yes_actions no_actions) = do
      holds ← if_analyize lib exe condition
      run_all (if holds then yes_actions else no_actions)
    analyize (while condition actions) = do
      holds ← if_analyize lib exe condition
      if holds then (run_all actions >>= λ _. again (while condition actions)) else answer tt
    analyize (query text connection name) = do
      sql ← change lib exe rounds true text
      result ← send connection sql
      put_result name result
    analyize (assignment param value) = do v ← assignment_analyize rounds value; put_value param v
    analyize (foreach a params actions) = do
      v ← get_value a
      rs ← rows_of v
      each_row params (run_all actions) rs

  -- `doAnalyize` and the loop over actions, by rounds, of which each action has one less for what is in it.
  unfoldable mutual
    unfolding analyize

    pub do_analyize : ℕ → Action → R (Unit {0})
    do_analyize zero action = stop
    do_analyize (suc rounds) action =
        analyize rounds (do_actions rounds) (do_analyize rounds) action

    pub do_actions : ℕ → Actions → R (Unit {0})
    do_actions zero actions = stop
    do_actions (suc rounds) nil = answer tt
    do_actions (suc rounds) (cons a actions) =
        do_analyize rounds a >>= λ _. do_actions rounds actions

  -- `analyizeExe`
  unfoldable pub analyize_exe : ℕ → Actions → Runner → Outcome (Unit {0})
  unfolding do_actions
  analyize_exe rounds actions r = do_actions rounds actions r

-- `Start.main`: a script that did not compile, or what its run comes to.
pub data Started : Type 0 where
  not_compiled : Failure → Started
  ran : Outcome (Unit {0}) → Started

abbrev pub first_runner : Exe → Runner
first_runner exe = record { values = map (λ type. null) exe.store; sent = [] }

abbrev pub run_compiled : Library → ℕ → Result Actions → Started
run_compiled lib rounds (compiled actions c) =
    ran (analyize_exe lib c.exe rounds actions (first_runner c.exe))
run_compiled lib rounds (failed e) = not_compiled e
run_compiled lib rounds Result.no_rounds = ran Outcome.no_rounds

unfoldable pub main : Library → (Text → Text → Option ℕ) → ℕ → List Text → Started
unfolding compile analyize_exe
main lib connect rounds lines = run_compiled lib rounds (compile connect lines)
