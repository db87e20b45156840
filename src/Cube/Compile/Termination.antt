-- ===== src/Cube/Compile/Termination.antt =====
-- Two rounds for each line, and two more, are enough for a compilation.
use toyhoodle.Prelude.{
  ℕ, zero, suc, ◌+◌, ◌*◌, ◌≤◌, ◌≢◌, Bool, true, false, Option, none, some, List, [], arith, length,
}
use toyhoodle.Cube.ParamChange.{Text, is_prefix}
use toyhoodle.Cube.Compile.Names.{
  Action, Actions, Failure, not_endwhile, not_endforeach, query_header, foreach_header,
  put_assignment, put_param_line, put_data_source,
}
use toyhoodle.Cube.Compile.State.{Compiler, no_rounds, M, ◌>>=◌, give}
use toyhoodle.Cube.Compile.{
  Head, Mark, Model, add_to, put_head, put_mark, put_body, put_action, put_if, put_block,
  query_loop, compile_line, compile_loop, compile, start, model_transform, mark_of, head_of,
}
use toyhoodle.Cube.Compile.Rounds.{
  Ends, weaken, bind_Ends, read_Ends, after, gives, ask-Stays, query_loop-Ends,
}

-- The loops that a round calls have the rounds that they need.
abbrev IfEnds : ℕ → (Bool → M (Actions × Actions)) → Type 0
IfEnds rounds put_if =
    (wrench : Bool) (c : Compiler)
    → 2 * length c.lines + 1 ≤ rounds
    → Ends (length c.lines) (put_if wrench c)

abbrev BlockEnds : ℕ → (Text → Failure → M Actions) → Type 0
BlockEnds rounds put_block =
    (end : Text) (failure : Failure) (c : Compiler)
    → 2 * length c.lines + 1 ≤ rounds
    → Ends (length c.lines) (put_block end failure c)

abbrev ActionEnds : ℕ → (Option Text → M Action) → Type 0
ActionEnds rounds put_action =
    (line : Option Text) (c : Compiler)
    → 2 * length c.lines + 2 ≤ rounds
    → Ends (length c.lines) (put_action line c)

module _ (rounds : ℕ) (if_loop : Bool → M (Actions × Actions)) (block : Text → Failure → M Actions)
    (if_ends : IfEnds rounds if_loop) (block_ends : BlockEnds rounds block) where
  put_head-Ends :
      (head : Head) (line : Text) (c : Compiler)
      → 2 * length c.lines + 1 ≤ rounds
      → Ends (length c.lines) (put_head if_loop block (query_loop rounds []) head line c)
  unfolding put_head
  put_head-Ends Head.if_head line c h =
      bind_Ends _ _ _ _ (if_ends true c h) λ branches c1 h1. gives _ c1 h1
  put_head-Ends Head.query_head line c h = after c (ask-Stays (query_header line)) λ header c1 h1.
      bind_Ends _ _ _ _ (query_loop-Ends rounds [] c1 (omega arith))
        λ text c2 h2. gives _ c2 (omega arith)
  put_head-Ends Head.while_head line c h =
      bind_Ends _ _ _ _ (block_ends _ not_endwhile c h) λ actions c1 h1. gives _ c1 h1
  put_head-Ends Head.foreach_head line c h =
      after c (ask-Stays (foreach_header line)) λ header c1 h1.
        bind_Ends _ _ _ _ (block_ends _ not_endforeach c1 (omega arith))
          λ actions c2 h2. gives _ c2 (omega arith)
  put_head-Ends Head.assignment_head line c h = (ask-Stays (put_assignment line)).stays c
  put_head-Ends Head.other_head line c h = record { ends = tt }

module _ (rounds : ℕ) (action : Option Text → M Action) (if_loop : Bool → M (Actions × Actions))
    (action_ends : ActionEnds rounds action) (if_ends : IfEnds rounds if_loop) where
  put_mark-Ends :
      (wrench : Bool) (mark : Mark) (line : Text) (c : Compiler)
      → 2 * length c.lines + 2 ≤ rounds
      → Ends (length c.lines) (put_mark action if_loop wrench mark line c)
  unfolding put_mark
  put_mark-Ends wrench Mark.endif_mark line c h = gives _ c (omega arith)
  put_mark-Ends wrench Mark.other_mark line c h =
      bind_Ends _ _ _ _ (action_ends (some line) c h) λ a c1 h1.
        bind_Ends _ _ _ _ (if_ends wrench c1 (omega arith))
          λ branches c2 h2. gives _ c2 (omega arith)
  put_mark-Ends wrench Mark.else_mark line c h =
      read_Ends _ _ c (λ c1 h1. rest none c1 (omega arith))
        (λ behind c1 h1. rest (some behind) c1 (omega arith))
    where
      rest :
          (behind : Option Text) (c1 : Compiler)
          → length c1.lines ≤ length c.lines
          → Ends (length c.lines) (
              (action behind >>= λ a. if_loop false >>= λ branches. give (add_to false a branches))
                c1)
      rest behind c1 h1 = bind_Ends _ _ _ _ (action_ends behind c1 (omega arith)) λ a c2 h2.
          bind_Ends _ _ _ _ (if_ends false c2 (omega arith))
            λ branches c3 h3. gives _ c3 (omega arith)

module _ (rounds : ℕ) (action : Option Text → M Action) (block : M Actions) (failure : Failure)
    (action_ends : ActionEnds rounds action)
    (block_ends : (c : Compiler)
      → 2 * length c.lines + 1 ≤ rounds
      → Ends (length c.lines) (block c)) where
  put_body-Ends :
      (is_end : Bool) (line : Text) (c : Compiler)
      → 2 * length c.lines + 2 ≤ rounds
      → Ends (length c.lines) (put_body action block is_end line c)
  unfolding put_body
  put_body-Ends true line c h = gives _ c (omega arith)
  put_body-Ends false line c h = bind_Ends _ _ _ _ (action_ends (some line) c h) λ a c1 h1.
      bind_Ends _ _ _ _ (block_ends c1 (omega arith)) λ actions c2 h2. gives _ c2 (omega arith)

mutual
  unfolding put_action put_if put_block

  put_action-Ends : (rounds : ℕ) → ActionEnds rounds (put_action rounds)
  put_action-Ends zero line c h = absurd (omega arith)
  put_action-Ends (suc rounds) none c h = record { ends = tt }
  put_action-Ends (suc rounds) (some line) c h =
      put_head-Ends rounds (put_if rounds) (put_block rounds) (put_if-Ends rounds)
        (put_block-Ends rounds) (head_of line) line c (omega arith)

  put_if-Ends : (rounds : ℕ) → IfEnds rounds (put_if rounds)
  put_if-Ends zero wrench c h = absurd (omega arith)
  put_if-Ends (suc rounds) wrench c h =
      read_Ends _ _ c (λ c1 h1. record { ends = tt })
        λ line c1 h1. weaken (omega arith) (
          put_mark-Ends rounds (put_action rounds) (put_if rounds) (put_action-Ends rounds)
            (put_if-Ends rounds) wrench (mark_of line) line c1 (omega arith))

  put_block-Ends : (rounds : ℕ) → BlockEnds rounds (put_block rounds)
  put_block-Ends zero end failure c h = absurd (omega arith)
  put_block-Ends (suc rounds) end failure c h =
      read_Ends _ _ c (λ c1 h1. record { ends = tt })
        λ line c1 h1. weaken (omega arith) (
          put_body-Ends rounds (put_action rounds) (put_block rounds end failure) failure
            (put_action-Ends rounds) (put_block-Ends rounds end failure) (is_prefix end line) line
            c1 (omega arith))

module _ (connect : Text → Text → Option ℕ) where
  abbrev LoopEnds : ℕ → (Option Model → M Actions) → Type 0
  LoopEnds rounds loop =
      (model : Option Model) (c : Compiler)
      → 2 * length c.lines + 1 ≤ rounds
      → Ends (length c.lines) (loop model c)

  compile_line-Ends :
      (rounds : ℕ) (loop : Option Model → M Actions) (action : Option Text → M Action)
      (header model : Option Model) (line : Text) (c : Compiler)
      → LoopEnds rounds loop
      → ActionEnds rounds action
      → 2 * length c.lines + 2 ≤ rounds
      → Ends (length c.lines) (compile_line connect loop action header model line c)
  unfolding compile_line
  compile_line-Ends rounds loop action (some header) model line c hl ha h = hl _ c (omega arith)
  compile_line-Ends rounds loop action none none line c hl ha h = hl _ c (omega arith)
  compile_line-Ends rounds loop action none (some Model.datasource) line c hl ha h =
      after c (ask-Stays (put_data_source connect line))
        λ _ c1 h1. weaken h1 (hl _ c1 (omega arith))
  compile_line-Ends rounds loop action none (some Model.param) line c hl ha h =
      after c (ask-Stays (put_param_line line)) λ _ c1 h1. weaken h1 (hl _ c1 (omega arith))
  compile_line-Ends rounds loop action none (some Model.action) line c hl ha h =
      bind_Ends _ _ _ _ (ha (some line) c h) λ a c1 h1.
        bind_Ends _ _ _ _ (hl _ c1 (omega arith)) λ actions c2 h2. gives _ c2 (omega arith)

  compile_loop-Ends : (rounds : ℕ) → LoopEnds rounds (compile_loop connect rounds)
  unfolding compile_loop
  compile_loop-Ends zero model c h = absurd (omega arith)
  compile_loop-Ends (suc rounds) model c h =
      read_Ends _ _ c (λ c1 h1. gives _ c1 (omega arith))
        λ line c1 h1. weaken (omega arith) (
          compile_line-Ends rounds (compile_loop connect rounds) (put_action rounds)
            (model_transform line) model line c1 (compile_loop-Ends rounds) (put_action-Ends rounds)
            (omega arith))

  -- Whatever a file holds and whatever JDBC makes of its data sources, its compilation ends: two rounds
  -- for each of its lines and two more are enough, so that it never runs out of them.
  pub compile-ne-no_rounds : (lines : List Text) → compile connect lines ≢ no_rounds
  unfolding compile
  compile-ne-no_rounds lines e =
      let h = compile_loop-Ends (2 * length lines + 2) none (start lines) (omega arith) in
      let bad : Ends {A = Actions} (length lines) no_rounds = rw e at h in absurd (bad.ends)
