-- ===== src/Cube/Compile/Answers.antt =====
-- What is left behind a block, and the answers of the parts of the compiler in a row.
use toyhoodle.Prelude.{◌≤◌, ◌≡◌, refl, true, false, List, [], ◌∷◌, ◌++◌, arith, length}
use toyhoodle.Cube.ParamChange.{Text}
use toyhoodle.Cube.Text.{codes}
use toyhoodle.Cube.Compile.Names.{Action, Actions, nil, cons, Exe, Built, built, wrong, E, answer}
use toyhoodle.Cube.Compile.State.{Compiler, Result, compiled, failed, no_rounds, M, settle, ◌>>=◌}
use toyhoodle.Cube.Compile.{add_to}
use toyhoodle.Cube.Compile.Blocks.{
  Block, Blocks, if_block, query_block, while_block, foreach_block, assignment_block, end, block,
  lines_behind, lines_of, else_lines, and_then,
}
use toyhoodle.Cube.Compile.Starts.{at_lines}

lines_text-length :
    (text : List Text) (line : Text) (rest : List Text)
    → length rest ≤ length (text ++ (line ∷ rest))
lines_text-length [] line rest = omega arith
lines_text-length (l ∷ text) line rest = let h = lines_text-length text line rest in omega arith

mutual
  unfolding lines_behind lines_of else_lines

  pub lines_behind-length :
      (b : Block) (rest : List Text) → length rest ≤ length (lines_behind b rest)
  lines_behind-length (if_block line yes_blocks no_blocks) rest =
      let h = else_lines-length no_blocks (codes "ENDIF" ∷ rest) in
      let h1 = lines_of-length yes_blocks (else_lines no_blocks (codes "ENDIF" ∷ rest)) in
      omega arith
  lines_behind-length (query_block line text) rest = lines_text-length text _ rest
  lines_behind-length (while_block line blocks) rest =
      let h = lines_of-length blocks (codes "ENDWHILE" ∷ rest) in omega arith
  lines_behind-length (foreach_block line blocks) rest =
      let h = lines_of-length blocks (codes "ENDFOREACH" ∷ rest) in omega arith
  lines_behind-length (assignment_block line) rest = omega arith

  lines_of-length : (bs : Blocks) (rest : List Text) → length rest ≤ length (lines_of bs rest)
  lines_of-length end rest = omega arith
  lines_of-length (block b bs) rest =
      let h = lines_of-length bs rest in
      let h1 = lines_behind-length b (lines_of bs rest) in omega arith

  else_lines-length : (bs : Blocks) (rest : List Text) → length rest ≤ length (else_lines bs rest)
  else_lines-length end rest = omega arith
  else_lines-length (block b bs) rest =
      let h = lines_of-length bs rest in
      let h1 = lines_behind-length b (lines_of bs rest) in omega arith

-- An answer, with the lines that are left.
abbrev pub leaving : {A : Type 0} → List Text → Built A → Result A
leaving lines (built a x) = compiled a (at_lines lines x)
leaving lines (wrong e) = failed e

pub settle-leaving :
    {A : Type 0} (lines : List Text) (x : Exe) (r : Built A)
    → settle (at_lines lines x) r ≡ leaving lines r
settle-leaving lines x (built a y) = refl
settle-leaving lines x (wrong e) = refl

-- What is done behind a part of the compiler that leaves an answer.
pub chain :
    {A B : Type 0} (m : M A) (f : A → M B) (p : E A) (q : A → E B) (c : Compiler)
    (lines rest : List Text) (x : Exe)
    → m c ≡ leaving lines (p x)
    → ((a : A) (y : Exe) → f a (at_lines lines y) ≡ leaving rest (q a y))
    → (m >>= f) c ≡ leaving rest (and_then p q x)
chain m f p q c lines rest x e h = rw (e, ◌>>=◌) (go (p x))
  where
    go :
        (r : Built _)
        → elim (leaving lines r) [
          | compiled a c ↦ f a c
          | failed e ↦ failed e
          | no_rounds ↦ no_rounds
        ]
          ≡ leaving rest (elim r [ built a y ↦ q a y | wrong e ↦ wrong e ])
    go (built a y) = h a y
    go (wrong e) = refl

-- The actions of both branches.
abbrev pub branches_of : E Actions → E Actions → E (Actions × Actions)
branches_of ys ns =
    and_then ys λ yes_actions. and_then ns λ no_actions. answer (yes_actions, no_actions)

pub branches_of-then :
    {A : Type 0} (ys ns : E Actions) (k : Actions → Actions → A) (x : Exe)
    → and_then (branches_of ys ns) (λ branches. answer (k branches.0 branches.1)) x
      ≡ and_then ys (λ y. and_then ns λ n. answer (k y n)) x
branches_of-then ys ns k x = ground arith

abbrev pub add_all : E Action → E Actions → E Actions
add_all a actions = and_then a λ a. and_then actions λ actions. answer (cons a actions)

pub branches_of-add_yes :
    (a : E Action) (ys ns : E Actions) (x : Exe)
    → and_then a (λ a. and_then (branches_of ys ns) λ branches. answer (add_to true a branches)) x
      ≡ branches_of (add_all a ys) ns x
branches_of-add_yes a ys ns x = ground arith

pub branches_of-add_no :
    (a : E Action) (ns : E Actions) (x : Exe)
    → and_then a
        (λ a. and_then (branches_of (answer nil) ns) λ branches. answer (add_to false a branches))
        x
      ≡ branches_of (answer nil) (add_all a ns) x
branches_of-add_no a ns x = ground arith
