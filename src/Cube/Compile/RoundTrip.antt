-- ===== src/Cube/Compile/RoundTrip.antt =====
-- The compiler reads the lines of a block back as the action of the block.
use toyhoodle.Prelude.{
  ℕ, zero, suc, ◌+◌, ◌*◌, ◌≤◌, ◌≡◌, refl, ap, ◌∙◌, true, false, some, List, [], ◌∷◌, arith, length,
  drop, Option,
}
use toyhoodle.Cube.ParamChange.{Text, is_prefix}
use toyhoodle.Cube.Text.{codes, trim, trim_start}
use toyhoodle.Cube.Compile.Names.{
  nil, if_, Exe, answer, query_header, foreach_header, put_assignment, Failure, not_endwhile,
  not_endforeach,
}
use toyhoodle.Cube.Compile.State.{read_line, next_line, ask, is_skipped}
use toyhoodle.Cube.Compile.{
  Model, compile_loop, compile_next, compile_line, add_to, put_head, put_mark, put_branch, put_body,
  put_next, put_action, put_if, put_block, query_loop, mark_of,
}
use toyhoodle.Cube.Compile.Blocks.{
  Block, Blocks, if_block, query_block, while_block, foreach_block, assignment_block, end, block,
  first_line, lines_behind, lines_of, else_lines, build, build_all, IsPlain, IsBlock, AreBlocks,
}
use toyhoodle.Cube.Compile.Starts.{
  at_lines, first_line-IsStart, first_line-none, is_prefix_refl, read_bind, query_loop-text,
  bind-compiled,
}
use toyhoodle.Cube.Compile.Answers.{
  leaving, settle-leaving, chain, branches_of, branches_of-then, branches_of-add_yes,
  branches_of-add_no, lines_behind-length,
}

mutual
  unfolding put_action put_if put_block put_head put_branch put_mark put_next put_body lines_behind
      lines_of else_lines build is_prefix trim trim_start is_skipped mark_of

  -- `putAction` on the first line of a block.
  put_action-leaving :
      (rounds : ℕ) (b : Block) (rest : List Text) (x : Exe)
      → IsBlock b
      → 2 * length (lines_behind b rest) + 2 ≤ rounds
      → put_action rounds (some (first_line b)) (at_lines (lines_behind b rest) x)
        ≡ leaving rest (build b x)
  put_action-leaving zero b rest x h r = absurd (omega arith)
  put_action-leaving (suc rounds) (if_block line yes_blocks no_blocks) rest x h r = rw h.1 (
      chain (put_if rounds true) _ (branches_of (build_all yes_blocks) (build_all no_blocks)) _ _
        rest rest x (put_if-yes rounds yes_blocks no_blocks rest x h.2 h.3 (omega arith))
        (λ branches y. refl)
      ∙ ap (leaving rest) (
          branches_of-then (build_all yes_blocks) (build_all no_blocks) (if_ (trim (drop 2 line)))
            x))
  put_action-leaving (suc rounds) (query_block line text) rest x h r = rw h.1 (
      chain (ask (query_header line)) _ (query_header line) _ _ _ rest x (settle-leaving _ x _)
        (λ header y.
          bind-compiled (query_loop rounds []) _ _ _ _
            (query_loop-text rounds [] text rest y h.2 (omega arith))))
  put_action-leaving (suc rounds) (while_block line blocks) rest x h r = rw h.1 (
      chain (put_block rounds (codes "ENDWHILE") not_endwhile) _ (build_all blocks) _ _ rest rest x
        (put_block-build rounds _ _ blocks rest x (refl, refl) h.2 (omega arith))
        (λ actions y. refl))
  put_action-leaving (suc rounds) (foreach_block line blocks) rest x h r = rw h.1 (
      chain (ask (foreach_header line)) _ (foreach_header line) _ _ _ rest x (settle-leaving _ x _)
        (λ header y.
          chain (put_block rounds (codes "ENDFOREACH") not_endforeach) _ (build_all blocks) _ _ rest
            rest y (put_block-build rounds _ _ blocks rest y (refl, refl) h.2 (omega arith))
            (λ actions z. refl)))
  put_action-leaving (suc rounds) (assignment_block line) rest x h r =
      rw h.1 (settle-leaving rest x (put_assignment line x))

  put_if-yes :
      (rounds : ℕ) (yes_blocks no_blocks : Blocks) (rest : List Text) (x : Exe)
      → AreBlocks yes_blocks
      → AreBlocks no_blocks
      → 2 * length (lines_of yes_blocks (else_lines no_blocks (codes "ENDIF" ∷ rest))) + 1 ≤ rounds
      → put_if rounds true
          (at_lines (lines_of yes_blocks (else_lines no_blocks (codes "ENDIF" ∷ rest))) x)
        ≡ leaving rest (branches_of (build_all yes_blocks) (build_all no_blocks) x)
  put_if-yes zero yes_blocks no_blocks rest x hy hn r = absurd (omega arith)
  put_if-yes (suc rounds) end end rest x hy hn r = read_bind (codes "ENDIF") rest x (refl, refl) _
  put_if-yes (suc rounds) end (block b bs) rest x hy hn r =
      let start = first_line-IsStart b hn.0 in
      let shorter = lines_behind-length b (lines_of bs (codes "ENDIF" ∷ rest)) in
      read_bind (codes "ELSE") _ x (refl, refl) _
      ∙ read_bind (first_line b) _ x start.0 _
      ∙ chain (put_action rounds (some (first_line b))) _ (build b) _ _
          (lines_of bs (codes "ENDIF" ∷ rest)) rest x
          (put_action-leaving rounds b _ x hn.0 (omega arith))
          (λ a y.
            chain (put_if rounds false) _ (branches_of (answer nil) (build_all bs))
              (λ branches. answer (add_to false a branches)) _ rest rest y
              (put_if-no rounds bs rest y hn.1 (omega arith)) (λ branches z. refl))
      ∙ ap (leaving rest) (branches_of-add_no (build b) (build_all bs) x)
  put_if-yes (suc rounds) (block b bs) no_blocks rest x hy hn r =
      let start = first_line-IsStart b hy.0 in
      let behind = else_lines no_blocks (codes "ENDIF" ∷ rest) in
      let shorter = lines_behind-length b (lines_of bs behind) in
      read_bind (first_line b) _ x start.0 _
      ∙ rw start.1 (
          chain (put_action rounds (some (first_line b))) _ (build b) _ _ (lines_of bs behind) rest
            x (put_action-leaving rounds b _ x hy.0 (omega arith))
            (λ a y.
              chain (put_if rounds true) _ (branches_of (build_all bs) (build_all no_blocks))
                (λ branches. answer (add_to true a branches)) _ rest rest y
                (put_if-yes rounds bs no_blocks rest y hy.1 hn (omega arith)) (λ branches z. refl))
          ∙ ap (leaving rest)
              (branches_of-add_yes (build b) (build_all bs) (build_all no_blocks) x))

  put_if-no :
      (rounds : ℕ) (blocks : Blocks) (rest : List Text) (x : Exe)
      → AreBlocks blocks
      → 2 * length (lines_of blocks (codes "ENDIF" ∷ rest)) + 1 ≤ rounds
      → put_if rounds false (at_lines (lines_of blocks (codes "ENDIF" ∷ rest)) x)
        ≡ leaving rest (branches_of (answer nil) (build_all blocks) x)
  put_if-no zero blocks rest x h r = absurd (omega arith)
  put_if-no (suc rounds) end rest x h r = read_bind (codes "ENDIF") rest x (refl, refl) _
  put_if-no (suc rounds) (block b bs) rest x h r =
      let start = first_line-IsStart b h.0 in
      let shorter = lines_behind-length b (lines_of bs (codes "ENDIF" ∷ rest)) in
      read_bind (first_line b) _ x start.0 _
      ∙ rw start.1 (
          chain (put_action rounds (some (first_line b))) _ (build b) _ _
            (lines_of bs (codes "ENDIF" ∷ rest)) rest x
            (put_action-leaving rounds b _ x h.0 (omega arith))
            (λ a y.
              chain (put_if rounds false) _ (branches_of (answer nil) (build_all bs))
                (λ branches. answer (add_to false a branches)) _ rest rest y
                (put_if-no rounds bs rest y h.1 (omega arith)) (λ branches z. refl))
          ∙ ap (leaving rest) (branches_of-add_no (build b) (build_all bs) x))

  put_block-build :
      (rounds : ℕ) (tail : Text) (failure : Failure) (blocks : Blocks) (rest : List Text) (x : Exe)
      → IsPlain (69 ∷ tail)
      → AreBlocks blocks
      → 2 * length (lines_of blocks ((69 ∷ tail) ∷ rest)) + 1 ≤ rounds
      → put_block rounds (69 ∷ tail) failure (at_lines (lines_of blocks ((69 ∷ tail) ∷ rest)) x)
        ≡ leaving rest (build_all blocks x)
  put_block-build zero tail failure blocks rest x plain h r = absurd (omega arith)
  put_block-build (suc rounds) tail failure end rest x plain h r =
      read_bind (69 ∷ tail) rest x plain _ ∙ rw (is_prefix_refl tail) refl
  put_block-build (suc rounds) tail failure (block b bs) rest x plain h r =
      let start = first_line-IsStart b h.0 in
      let shorter = lines_behind-length b (lines_of bs ((69 ∷ tail) ∷ rest)) in
      read_bind (first_line b) _ x start.0 _
      ∙ rw (start.2 tail) (
          chain (put_action rounds (some (first_line b))) _ (build b) _ _
            (lines_of bs ((69 ∷ tail) ∷ rest)) rest x
            (put_action-leaving rounds b _ x h.0 (omega arith))
            (λ a y.
              chain (put_block rounds (69 ∷ tail) failure) _ (build_all bs) _ _ rest rest y
                (put_block-build rounds tail failure bs rest y plain h.1 (omega arith))
                (λ actions z. refl)))

module _ (connect : Text → Text → Option ℕ) where
  -- In the section of actions, where the lines that are left spell blocks to the end of the file,
  -- `compile` gives the actions of the blocks in their order, or the exception that the names lead to,
  -- whatever names the sections before have left; the rounds are at least one more than two for each
  -- line.
  pub compile_loop-build :
      (rounds : ℕ) (blocks : Blocks) (x : Exe)
      → AreBlocks blocks
      → 2 * length (lines_of blocks []) + 1 ≤ rounds
      → compile_loop connect rounds (some Model.action) (at_lines (lines_of blocks []) x)
        ≡ leaving [] (build_all blocks x)
  unfolding compile_loop compile_next compile_line lines_of build_all read_line next_line
  compile_loop-build zero blocks x h r = absurd (omega arith)
  compile_loop-build (suc rounds) end x h r = refl
  compile_loop-build (suc rounds) (block b bs) x h r =
      let start = first_line-IsStart b h.0 in
      let shorter = lines_behind-length b (lines_of bs []) in
      read_bind (first_line b) _ x start.0 _
      ∙ rw (first_line-none b h.0) (
          chain (put_action rounds (some (first_line b))) _ (build b) _ _ (lines_of bs []) [] x
            (put_action-leaving rounds b _ x h.0 (omega arith))
            (λ a y.
              chain (compile_loop connect rounds (some Model.action)) _ (build_all bs) _ _ [] [] y
                (compile_loop-build rounds bs y h.1 (omega arith)) (λ actions z. refl)))
