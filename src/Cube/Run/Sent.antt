-- ===== src/Cube/Run/Sent.antt =====
-- What a run hands to JDBC: the texts of its queries.
use mathlib.Core.Path.{fun_ext}
use toyhoodle.Prelude.{
  drop, ℕ, zero, suc, ◌≡◌, refl, ◌∙◌, ap, Bool, true, Option, none, some, List, inl, inr,
  Option-cases,
}
use toyhoodle.Cube.ParamChange.{
  Text, Param, Change, changed, not_definition, null_pointer, no_end, at, index_of, param_change,
  param_name, replace, replacement,
}
use toyhoodle.Cube.Compile.Names.{
  Action, Actions, nil, cons, if_, while, query, assignment, foreach, Exe,
}
use toyhoodle.Cube.Run.Values.{Row, Value, Library, R, Runner, ◌>>=◌}
use toyhoodle.Cube.Run.Conditions.{change, if_analyize, seen, settle}
use toyhoodle.Cube.Run.{
  send, analyize, do_analyize, do_actions, analyize_exe, assignment_analyize, put_result,
}

-- A text that `paramChage` gives has no name left in it.
abbrev IsPlain : Change → Type 0
IsPlain (changed s) = index_of at s ≡ none
IsPlain not_definition = Unit
IsPlain null_pointer = Unit
IsPlain no_end = Unit

param_change-IsPlain :
    (rounds : ℕ) (params : Text → Option Param) (is_sql : Bool) (s : Text)
    → IsPlain (param_change rounds params is_sql s)
unfolding param_change
param_change-IsPlain zero params is_sql s = tt
param_change-IsPlain (suc n) params is_sql s = elim (Option-cases (index_of at s)) [
  | inl miss ↦ rw (param_change, miss) miss
  | inr (i, hit) ↦
      let name = param_name (drop i s) in
      elim (Option-cases (params name)) [
        | inl unknown ↦ rw (param_change, hit, unknown) tt
        | inr (p, known) ↦ elim (Option-cases (replacement is_sql p)) [
          | inl is_null ↦ rw (param_change, hit, known, is_null) tt
          | inr (v, given) ↦
              rw (param_change, hit, known, given)
                (param_change-IsPlain n params is_sql (replace name v s))
        ]
      ]
]

-- Two libraries that answer the queries without names alike, and are the same otherwise.
module _ (lib : Library) (exe : Exe)
    (other : List (ℕ × Text) → ℕ → Text → Option (Option (List Row)))
    (same : (sent : List (ℕ × Text)) (connection : ℕ) (sql : Text)
      → index_of at sql ≡ none
      → lib.query sent connection sql ≡ other sent connection sql) where
  abbrev lib' : Library
  lib' = record lib { query = other }

  send_same :
      (connection : Option ℕ) (sql : Text) (r : Runner)
      → index_of at sql ≡ none
      → send lib exe connection sql r ≡ send lib' exe connection sql r
  unfolding send
  send_same none sql r h = refl
  send_same (some c) sql r h = rw (send, same r.sent c sql h) refl

  -- A text is sent as `paramChage` gave it.
  changed_same :
      (c : Change) (connection : Option ℕ) (k : Value → R (Unit {0})) (r : Runner)
      → IsPlain c
      → (settle lib exe c >>= λ sql. send lib exe connection sql >>= k) r
        ≡ (settle lib exe c >>= λ sql. send lib' exe connection sql >>= k) r
  changed_same (changed s) connection k r h = rw (send_same connection s r h, ◌>>=◌) refl
  changed_same not_definition connection k r h = refl
  changed_same null_pointer connection k r h = refl
  changed_same no_end connection k r h = refl

  analyize_same :
      (n : ℕ) (run_all : Actions → R (Unit {0})) (again : Action → R (Unit {0})) (a : Action)
      → analyize lib exe n run_all again a ≡ analyize lib' exe n run_all again a
  unfolding analyize if_analyize assignment_analyize change seen
  analyize_same n run_all again (if_ condition yes_actions no_actions) = refl
  analyize_same n run_all again (while condition actions) = refl
  analyize_same n run_all again (query text connection name) = fun_ext λ r.
      changed_same (param_change n (seen lib exe r) true text) connection (put_result name) r
        (param_change-IsPlain n (seen lib exe r) true text)
  analyize_same n run_all again (assignment param value) = refl
  analyize_same n run_all again (foreach a params actions) = refl

  runs_same :
      (n : ℕ)
      → (do_analyize lib exe n ≡ do_analyize lib' exe n)
        × (do_actions lib exe n ≡ do_actions lib' exe n)
  unfolding do_actions
  runs_same zero = (refl, refl)
  runs_same (suc n) =
      let (one, all) = runs_same n in
      (
        fun_ext λ a.
            ap (λ run_all. analyize lib exe n run_all (do_analyize lib exe n) a) all
            ∙ ap (λ again. analyize lib exe n (do_actions lib' exe n) again a) one
            ∙ analyize_same n (do_actions lib' exe n) (do_analyize lib' exe n) a,
        fun_ext (actions_same one all),
      )
    where
      actions_same :
          do_analyize lib exe n ≡ do_analyize lib' exe n
          → do_actions lib exe n ≡ do_actions lib' exe n
          → (actions : Actions)
          → do_actions lib exe (suc n) actions ≡ do_actions lib' exe (suc n) actions
      actions_same one all nil = refl
      actions_same one all (cons a actions) =
          ap (λ f. f a >>= λ _. do_actions lib exe n actions) one
          ∙ ap (λ f. do_analyize lib' exe n a >>= λ _. f actions) all

  pub analyize_exe_same :
      (n : ℕ) (actions : Actions) (r : Runner)
      → analyize_exe lib exe n actions r ≡ analyize_exe lib' exe n actions r
  unfolding analyize_exe
  analyize_exe_same n actions r = ap (λ f. f actions r) (runs_same n).1
