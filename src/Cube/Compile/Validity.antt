-- ===== src/Cube/Compile/Validity.antt =====
-- The actions of a compiled script refer to objects that Exe has.
use toyhoodle.Prelude.{
  ℕ, zero, suc, ◌+◌, ◌*◌, ◌<◌, ◌≡◌, Bool, true, false, Option, none, some, List, [], arith, length,
}
use toyhoodle.Cube.ParamChange.{Text, is_prefix}
use toyhoodle.Cube.Compile.Names.{Action, Actions, Failure, not_endwhile, not_endforeach}
use toyhoodle.Cube.Compile.State.{Compiler, compiled, M, ◌>>=◌, give}
use toyhoodle.Cube.Compile.{
  Head, Mark, Model, add_to, put_head, put_mark, put_branch, put_body, put_next, put_action, put_if,
  put_block, query_loop, compile_line, compile_next, compile_loop, compile, start, model_transform,
  mark_of, head_of,
}
use toyhoodle.Cube.Compile.Addresses.{
  IsAddress, AreAddresses, IsValid, AreValid, raise-IsValid, raise-AreAddresses, raise-IsAddress,
  HasObjects, Anything,
}
use toyhoodle.Cube.Compile.Fitting.{
  query_header-Fits, foreach_header-Fits, put_assignment-Fits, put_param_line-Fits,
  put_data_source-Fits,
}
use toyhoodle.Cube.Compile.Keeping.{
  Keeps, bind_Keeps, keeping, weaken, settle-Keeps, read_line-Keeps, query_loop-Keeps,
}

abbrev AreBranches : ℕ → Actions × Actions → Type 0
AreBranches n branches = AreValid n branches.0 × AreValid n branches.1

abbrev KeepsIf : (Bool → M (Actions × Actions)) → Type 0
KeepsIf if_loop =
    (wrench : Bool) (c : Compiler)
    → HasObjects c.exe
    → Keeps AreBranches (length c.exe.store) (if_loop wrench c)

abbrev KeepsActions : M Actions → Type 0
KeepsActions block =
    (c : Compiler) → HasObjects c.exe → Keeps AreValid (length c.exe.store) (block c)

abbrev KeepsAction : (Option Text → M Action) → Type 0
KeepsAction action =
    (line : Option Text) (c : Compiler)
    → HasObjects c.exe
    → Keeps IsValid (length c.exe.store) (action line c)

module _ (rounds : ℕ) (if_loop : Bool → M (Actions × Actions)) (block : Text → Failure → M Actions)
    (if_keeps : KeepsIf if_loop)
    (block_keeps : (end : Text) (failure : Failure) → KeepsActions (block end failure)) where
  put_head-Keeps :
      (head : Head) (line : Text) (c : Compiler)
      → HasObjects c.exe
      → Keeps IsValid
          (length c.exe.store)
          (put_head if_loop block (query_loop rounds []) head line c)
  unfolding put_head
  put_head-Keeps Head.if_head line c h =
      bind_Keeps AreBranches _ _ _ _ _ (if_keeps true c h)
        λ branches c1 h1 l1 v. keeping _ _ _ c1 h1 l1 v
  put_head-Keeps Head.query_head line c h =
      bind_Keeps (λ k header. IsAddress k header.1) _ (length c.exe.store) _ _ _
        (settle-Keeps _ _ c _ (query_header-Fits line c.exe _ h (omega arith)))
        λ header c1 h1 l1 v.
          bind_Keeps Anything _ _ _ _ _ (query_loop-Keeps rounds [] c1 h1)
            λ text c2 h2 l2 any. keeping _ _ _ c2 h2 (omega arith) (raise-IsAddress header.1 l2 v)
  put_head-Keeps Head.while_head line c h =
      bind_Keeps AreValid _ _ _ _ _ (block_keeps _ not_endwhile c h)
        λ actions c1 h1 l1 v. keeping _ _ _ c1 h1 l1 v
  put_head-Keeps Head.foreach_head line c h =
      bind_Keeps (λ k header. (header.0 < k) × AreAddresses k header.1) _ (length c.exe.store) _ _ _
        (settle-Keeps _ _ c _ (foreach_header-Fits line c.exe _ h (omega arith)))
        λ header c1 h1 l1 v.
          bind_Keeps AreValid _ _ _ _ _ (block_keeps _ not_endforeach c1 h1) λ actions c2 h2 l2 all.
            keeping _ _ _ c2 h2 (omega arith)
              (let d = v.0 in omega arith, raise-AreAddresses header.1 l2 v.1, all)
  put_head-Keeps Head.assignment_head line c h =
      settle-Keeps _ _ c _ (put_assignment-Fits line c.exe _ h (omega arith))
  put_head-Keeps Head.other_head line c h = record { keeps = tt }

add_to-AreBranches :
    (wrench : Bool) (n : ℕ) (a : Action) (branches : Actions × Actions)
    → IsValid n a
    → AreBranches n branches
    → AreBranches n (add_to wrench a branches)
add_to-AreBranches true n a (yes_actions, no_actions) v b = ((v, b.0), b.1)
add_to-AreBranches false n a (yes_actions, no_actions) v b = (b.0, (v, b.1))

module _ (action : Option Text → M Action) (if_loop : Bool → M (Actions × Actions))
    (action_keeps : KeepsAction action) (if_keeps : KeepsIf if_loop) where
  -- An action for a branch, and what the later rounds add to both.
  put_added-Keeps :
      (added wrench : Bool) (line : Option Text) (c : Compiler)
      → HasObjects c.exe
      → Keeps AreBranches
          (length c.exe.store)
          ((action line >>= λ a. if_loop wrench >>= λ branches. give (add_to added a branches)) c)
  put_added-Keeps added wrench line c h =
      bind_Keeps IsValid _ _ _ _ _ (action_keeps line c h) λ a c1 h1 l1 v.
        bind_Keeps AreBranches _ _ _ _ _ (if_keeps wrench c1 h1) λ branches c2 h2 l2 b.
          keeping AreBranches _ _ c2 h2 (omega arith)
            (add_to-AreBranches added _ a branches (raise-IsValid a l2 v) b)

  put_branch-Keeps :
      (wrench : Bool) (next : Option Text) (c : Compiler)
      → HasObjects c.exe
      → Keeps AreBranches (length c.exe.store) (put_branch action if_loop wrench next c)
  unfolding put_branch put_mark
  put_branch-Keeps wrench none c h = record { keeps = tt }
  put_branch-Keeps wrench (some line) c h = mark (mark_of line)
    where
      mark :
          (m : Mark)
          → Keeps AreBranches (length c.exe.store) (put_mark action if_loop wrench m line c)
      mark Mark.endif_mark = keeping AreBranches _ _ c h (omega arith) (tt, tt)
      mark Mark.other_mark = put_added-Keeps wrench wrench (some line) c h
      mark Mark.else_mark =
          bind_Keeps Anything _ _ _ _ _ (read_line-Keeps c h)
            λ behind c1 h1 l1 any. weaken AreBranches l1 (put_added-Keeps false false behind c1 h1)

module _ (action : Option Text → M Action) (block : M Actions) (end : Text) (failure : Failure)
    (action_keeps : KeepsAction action) (block_keeps : KeepsActions block) where
  put_next-Keeps :
      (next : Option Text) (c : Compiler)
      → HasObjects c.exe
      → Keeps AreValid (length c.exe.store) (put_next action block end failure next c)
  unfolding put_next put_body
  put_next-Keeps none c h = record { keeps = tt }
  put_next-Keeps (some line) c h = body (is_prefix end line)
    where
      body :
          (is_end : Bool)
          → Keeps AreValid (length c.exe.store) (put_body action block is_end line c)
      body true = keeping AreValid _ _ c h (omega arith) tt
      body false = bind_Keeps IsValid _ _ _ _ _ (action_keeps (some line) c h) λ a c1 h1 l1 v.
          bind_Keeps AreValid _ _ _ _ _ (block_keeps c1 h1) λ actions c2 h2 l2 all.
            keeping AreValid _ _ c2 h2 (omega arith) (raise-IsValid a l2 v, all)

mutual
  unfolding put_action put_if put_block

  put_action-Keeps : (rounds : ℕ) → KeepsAction (put_action rounds)
  put_action-Keeps zero line c h = record { keeps = tt }
  put_action-Keeps (suc rounds) none c h = record { keeps = tt }
  put_action-Keeps (suc rounds) (some line) c h =
      put_head-Keeps rounds (put_if rounds) (put_block rounds) (put_if-Keeps rounds)
        (put_block-Keeps rounds) (head_of line) line c h

  put_if-Keeps : (rounds : ℕ) → KeepsIf (put_if rounds)
  put_if-Keeps zero wrench c h = record { keeps = tt }
  put_if-Keeps (suc rounds) wrench c h =
      bind_Keeps Anything _ _ _ _ _ (read_line-Keeps c h) λ next c1 h1 l1 any.
        weaken AreBranches l1 (
          put_branch-Keeps (put_action rounds) (put_if rounds) (put_action-Keeps rounds)
            (put_if-Keeps rounds) wrench next c1 h1)

  put_block-Keeps :
      (rounds : ℕ) (end : Text) (failure : Failure) → KeepsActions (put_block rounds end failure)
  put_block-Keeps zero end failure c h = record { keeps = tt }
  put_block-Keeps (suc rounds) end failure c h =
      bind_Keeps Anything _ _ _ _ _ (read_line-Keeps c h) λ next c1 h1 l1 any. weaken AreValid l1 (
        put_next-Keeps (put_action rounds) (put_block rounds end failure) end failure
          (put_action-Keeps rounds) (put_block-Keeps rounds end failure) next c1 h1)

module _ (connect : Text → Text → Option ℕ) where
  compile_line-Keeps :
      (loop : Option Model → M Actions) (action : Option Text → M Action)
      (header model : Option Model) (line : Text) (c : Compiler)
      → ((model : Option Model) → KeepsActions (loop model))
      → KeepsAction action
      → HasObjects c.exe
      → Keeps AreValid (length c.exe.store) (compile_line connect loop action header model line c)
  unfolding compile_line
  compile_line-Keeps loop action (some header) model line c hl ha h = hl _ c h
  compile_line-Keeps loop action none none line c hl ha h = hl _ c h
  compile_line-Keeps loop action none (some Model.datasource) line c hl ha h =
      bind_Keeps Anything _ _ _ _ _
        (settle-Keeps _ _ c _ (put_data_source-Fits connect line c.exe _ h (omega arith)))
        λ u c1 h1 l1 any. weaken AreValid l1 (hl _ c1 h1)
  compile_line-Keeps loop action none (some Model.param) line c hl ha h =
      bind_Keeps Anything _ _ _ _ _
        (settle-Keeps _ _ c _ (put_param_line-Fits line c.exe _ h (omega arith)))
        λ u c1 h1 l1 any. weaken AreValid l1 (hl _ c1 h1)
  compile_line-Keeps loop action none (some Model.action) line c hl ha h =
      bind_Keeps IsValid _ _ _ _ _ (ha (some line) c h) λ a c1 h1 l1 v.
        bind_Keeps AreValid _ _ _ _ _ (hl _ c1 h1) λ actions c2 h2 l2 all.
          keeping AreValid _ _ c2 h2 (omega arith) (raise-IsValid a l2 v, all)

  compile_next-Keeps :
      (loop : Option Model → M Actions) (action : Option Text → M Action) (model : Option Model)
      (next : Option Text) (c : Compiler)
      → ((model : Option Model) → KeepsActions (loop model))
      → KeepsAction action
      → HasObjects c.exe
      → Keeps AreValid (length c.exe.store) (compile_next connect loop action model next c)
  unfolding compile_next
  compile_next-Keeps loop action model none c hl ha h = keeping AreValid _ _ c h (omega arith) tt
  compile_next-Keeps loop action model (some line) c hl ha h =
      compile_line-Keeps loop action (model_transform line) model line c hl ha h

  compile_loop-Keeps :
      (rounds : ℕ) (model : Option Model) → KeepsActions (compile_loop connect rounds model)
  unfolding compile_loop
  compile_loop-Keeps zero model c h = record { keeps = tt }
  compile_loop-Keeps (suc rounds) model c h =
      bind_Keeps Anything _ _ _ _ _ (read_line-Keeps c h) λ next c1 h1 l1 any. weaken AreValid l1 (
        compile_next-Keeps (compile_loop connect rounds) (put_action rounds) model next c1
          (compile_loop-Keeps rounds) (put_action-Keeps rounds) h1)

  -- Every parameter that the actions of a compiled script refer to is an object that Exe made, at any
  -- depth of the actions, and so is the object of every name.
  pub compile-AreValid :
      (lines : List Text) (actions : Actions) (c : Compiler)
      → compile connect lines ≡ compiled actions c
      → HasObjects c.exe × AreValid (length c.exe.store) actions
  unfolding compile
  compile-AreValid lines actions c e =
      let kept = compile_loop-Keeps (2 * length lines + 2) none (start lines) tt in
      let at_end : Keeps AreValid 0 (compiled actions c) = rw e at kept in
      let d = at_end.keeps in (d.0, d.2)
