-- ===== src/Cube/Compile.antt =====
-- Compile: the lines of a script become the actions that Analyize runs. A text is the list of its
-- characters. Parameters are objects: an action refers to one by its number in the store, and a name
-- is mapped to the object that it was given last.
pub mod Names
pub mod State
pub mod Rounds
pub mod Termination
pub mod Addresses
pub mod Fitting
pub mod Keeping
pub mod Validity
pub mod Blocks
pub mod Starts
pub mod Answers
pub mod RoundTrip
pub mod Tests
use toyhoodle.Prelude.{
  ℕ, zero, suc, ◌+◌, ◌*◌, Bool, true, false, Option, none, some, List, [], ◌∷◌, ◌++◌, drop, length,
  if◌then◌else◌,
}
use toyhoodle.Cube.ParamChange.{Text, is_prefix}
use toyhoodle.Cube.Text.{codes, trim}
use Names.{
  Action, Actions, nil, cons, if_, while, query, foreach, Exe, Failure, exp_errer, not_endif,
  not_endquery, not_endwhile, not_endforeach, keyword_error, query_header, foreach_header,
  put_assignment, put_param_line, put_data_source,
}
use State.{Compiler, Result, compiled, failed, M, ◌>>=◌, give, fail, stop, read_line, ask}

-- What `putAction` tests of a line, in its order.
pub data Head : Type 0 where
  if_head query_head while_head foreach_head assignment_head other_head : Head

unfoldable pub head_of : Text → Head
head_of line =
    if is_prefix (codes "IF") line
    then if_head
    else if is_prefix (codes "QUERY") line
    then query_head
    else if is_prefix (codes "WHILE") line
    then while_head
    else if is_prefix (codes "FOREACH") line
    then foreach_head
    else if is_prefix (codes "@") line
    then assignment_head
    else other_head

-- What the loop of IF tests of a line, in its order.
pub data Mark : Type 0 where
  else_mark endif_mark other_mark : Mark

unfoldable pub mark_of : Text → Mark
mark_of line =
    if is_prefix (codes "ELSE") line
    then else_mark
    else if is_prefix (codes "ENDIF") line
    then endif_mark
    else other_mark

-- The loop of QUERY, with the text so far.
unfoldable pub query_loop : ℕ → Text → M Text
query_loop zero text = stop
query_loop (suc rounds) text = do
  next ← read_line
  elim next [
    | none ↦ fail not_endquery
    | some line ↦ elim (is_prefix (codes "ENDQUERY") line) [
      | true ↦ give text
      | false ↦ query_loop rounds (text ++ codes " " ++ line ++ codes " ")
    ]
  ]

-- `if (wrench) _true_.add(a) else _false_.add(a)`, in front of what the later rounds add.
abbrev pub add_to : Bool → Action → Actions × Actions → Actions × Actions
add_to true a (yes_actions, no_actions) = (cons a yes_actions, no_actions)
add_to false a (yes_actions, no_actions) = (yes_actions, cons a no_actions)

-- The branches of `putAction`, over its loops.
module _ (put_if : Bool → M (Actions × Actions)) (put_block : Text → Failure → M Actions)
    (put_query : M Text) where
  unfoldable pub put_head : Head → Text → M Action
  put_head if_head line = do
    branches ← put_if true
    give (if_ (trim (drop 2 line)) branches.0 branches.1)
  put_head query_head line = do
    header ← ask (query_header line)
    text ← put_query
    give (query text header.0 header.1)
  put_head while_head line = do
    actions ← put_block (codes "ENDWHILE") not_endwhile
    give (while (trim (drop 5 line)) actions)
  put_head foreach_head line = do
    header ← ask (foreach_header line)
    actions ← put_block (codes "ENDFOREACH") not_endforeach
    give (foreach header.0 header.1 actions)
  put_head assignment_head line = ask (put_assignment line)
  put_head other_head line = fail keyword_error

module _ (put_action : Option Text → M Action) (put_if : Bool → M (Actions × Actions)) where
  -- A round of the loop of IF, by what its line is.
  unfoldable pub put_mark : Bool → Mark → Text → M (Actions × Actions)
  put_mark wrench else_mark line = do
    behind ← read_line
    a ← put_action behind
    branches ← put_if false
    give (add_to false a branches)
  put_mark wrench endif_mark line = give (nil, nil)
  put_mark wrench other_mark line = do
    a ← put_action (some line)
    branches ← put_if wrench
    give (add_to wrench a branches)

  unfoldable pub put_branch : Bool → Option Text → M (Actions × Actions)
  unfolding put_mark
  put_branch wrench none = fail not_endif
  put_branch wrench (some line) = put_mark wrench (mark_of line) line

module _ (put_action : Option Text → M Action) (put_block : M Actions) where
  -- A round of the loop of WHILE or FOREACH, by whether its line is the end.
  unfoldable pub put_body : Bool → Text → M Actions
  put_body true line = give nil
  put_body false line = do a ← put_action (some line); actions ← put_block; give (cons a actions)

  unfoldable pub put_next : Text → Failure → Option Text → M Actions
  unfolding put_body
  put_next end failure none = fail failure
  put_next end failure (some line) = put_body (is_prefix end line) line

-- A call takes a number of rounds, of which each call in it has one less.
unfoldable mutual
  unfolding put_head put_branch put_next

  -- `putAction`
  pub put_action : ℕ → Option Text → M Action
  put_action zero line = stop
  put_action (suc rounds) none = fail exp_errer
  put_action (suc rounds) (some line) =
      put_head (put_if rounds) (put_block rounds) (query_loop rounds []) (head_of line) line

  -- The loop of IF: the actions of both branches; `wrench` is true up to ELSE.
  pub put_if : ℕ → Bool → M (Actions × Actions)
  put_if zero wrench = stop
  put_if (suc rounds) wrench = read_line >>= put_branch (put_action rounds) (put_if rounds) wrench

  -- The loops of WHILE and FOREACH, up to the line that ends them.
  pub put_block : ℕ → Text → Failure → M Actions
  put_block zero end failure = stop
  put_block (suc rounds) end failure =
      read_line >>= put_next (put_action rounds) (put_block rounds end failure) end failure

-- `Compile.Model`
pub data Model : Type 0 where
  datasource param action : Model

-- `modelTransform`, none for a line that is no header.
unfoldable pub model_transform : Text → Option Model
model_transform line =
    if is_prefix (codes "[DATASOURCE]") line
    then some datasource
    else if is_prefix (codes "[PARAM]") line
    then some param
    else if is_prefix (codes "[ACTION]") line
    then some action
    else none

-- A compiler before its first line.
abbrev pub start : List Text → Compiler
start lines = record { lines = lines; exe = record { store = []; params = []; connections = [] } }

module _ (connect : Text → Text → Option ℕ) where
  -- What `compile` does with a line, by the header that it is, if any, and the section it stands in.
  unfoldable pub compile_line :
      (Option Model → M Actions)
      → (Option Text → M Action)
      → Option Model
      → Option Model
      → Text
      → M Actions
  compile_line loop act (some header) model line = loop (some header)
  compile_line loop act none none line = loop none
  compile_line loop act none (some Model.datasource) line =
      ask (put_data_source connect line) >>= λ _. loop (some datasource)
  compile_line loop act none (some Model.param) line =
      ask (put_param_line line) >>= λ _. loop (some param)
  compile_line loop act none (some Model.action) line = do
    a ← act (some line)
    actions ← loop (some Model.action)
    give (cons a actions)

  unfoldable pub compile_next :
      (Option Model → M Actions) → (Option Text → M Action) → Option Model → Option Text → M Actions
  unfolding compile_line
  compile_next loop act model none = give nil
  compile_next loop act model (some line) = compile_line loop act (model_transform line) model line

  -- The loop of `compile`, with the section so far.
  unfoldable pub compile_loop : ℕ → Option Model → M Actions
  unfolding put_action model_transform compile_next
  compile_loop zero model = stop
  compile_loop (suc rounds) model =
      read_line >>= compile_next (compile_loop rounds) (put_action rounds) model

  -- `compile`, on the lines of a file; it takes two rounds for a line at most.
  unfoldable pub compile : List Text → Result Actions
  unfolding compile_loop
  compile lines = compile_loop (2 * length lines + 2) none (start lines)
