-- ===== src/Cube/Compile/Starts.antt =====
-- What the loops of the compiler ask of the first line of a block, and the text that QUERY reads.
use toyhoodle.Prelude.{
  ℕ, zero, suc, ◌+◌, ◌*◌, ◌≤◌, ◌≡◌, ◌≢◌, refl, sym, ap, ◌∙◌, true, false, Option, some, none, List,
  [], ◌∷◌, ◌++◌, arith, length, Bool-cases, inl, inr, ◌==◌,
}
use toyhoodle.Cube.ParamChange.{Text, is_prefix}
use toyhoodle.Cube.Text.{codes, trim, trim_start}
use toyhoodle.Cube.Compile.Names.{Exe}
use toyhoodle.Cube.Compile.State.{
  Compiler, compiled, failed, no_rounds, M, is_skipped, next_line, read_line, ◌>>=◌,
}
use toyhoodle.Cube.Compile.{
  model_transform, Head, other_mark, other_head, query_loop, mark_of, head_of,
}
use toyhoodle.Cube.Compile.Blocks.{
  Block, if_block, query_block, while_block, foreach_block, assignment_block, first_line,
  query_text, IsPlain, AreQueryLines, IsBlock,
}

abbrev pub at_lines : List Text → Exe → Compiler
at_lines lines x = record { lines = lines; exe = x }

is_prefix-first : (c d : ℕ) (t s : Text) → (d == c) ≡ false → is_prefix (c ∷ t) (d ∷ s) ≡ false
unfolding is_prefix
is_prefix-first c d t s h = ground arith

pub is_prefix_refl : (s : Text) → is_prefix s s ≡ true
unfolding is_prefix
is_prefix_refl [] = refl
is_prefix_refl (c ∷ s) = let h = is_prefix_refl s in ground arith

head_of-E : (s : Text) → head_of (69 ∷ s) ≡ other_head
unfolding head_of
head_of-E s = simp (λ (c : ℕ) (t : Text) (h : (69 == c) ≡ false). is_prefix-first c 69 t s h)

mark_of-rest : (c : ℕ) (s : Text) → (c == 69) ≡ false → mark_of (c ∷ s) ≡ other_mark
unfolding mark_of
mark_of-rest c s other = simp (λ (t : Text). is_prefix-first 69 c t s other)

-- What the loops ask of a line that starts a block: it ends none.
abbrev pub IsStart : Text → Type 0
IsStart line =
    IsPlain line × (mark_of line ≡ other_mark) × ((t : Text) → is_prefix (69 ∷ t) line ≡ false)

starts_block :
    (line : Text) (head : Head)
    → IsPlain line
    → head_of line ≡ head
    → head ≢ other_head
    → IsStart line
unfolding mark_of is_prefix
starts_block [] head plain e ne = (plain, refl, λ t. refl)
starts_block (c ∷ s) head plain e ne = elim (Bool-cases (c == 69)) [
  | inl is_e ↦
      let same : c ≡ 69 = ground arith in
      absurd (ne (sym e ∙ ap (λ d. head_of (d ∷ s)) same ∙ head_of-E s))
  | inr other ↦ (plain, mark_of-rest c s other, λ t. is_prefix-first 69 c t s other)
]

pub first_line-IsStart : (b : Block) → IsBlock b → IsStart (first_line b)
first_line-IsStart (if_block line yes_blocks no_blocks) h = starts_block line _ h.0 h.1 cc
first_line-IsStart (query_block line text) h = starts_block line _ h.0 h.1 cc
first_line-IsStart (while_block line blocks) h = starts_block line _ h.0 h.1 cc
first_line-IsStart (foreach_block line blocks) h = starts_block line _ h.0 h.1 cc
first_line-IsStart (assignment_block line) h = starts_block line _ h.0 h.1 cc

read_plain :
    (line : Text) (rest : List Text) (x : Exe)
    → IsPlain line
    → read_line (at_lines (line ∷ rest) x) ≡ compiled (some line) (at_lines rest x)
unfolding read_line next_line
read_plain line rest x plain = rw (plain.0, plain.1) refl

pub bind-compiled :
    {A B : Type 0} (m : M A) (f : A → M B) (c c1 : Compiler) (a : A)
    → m c ≡ compiled a c1
    → (m >>= f) c ≡ f a c1
bind-compiled m f c c1 a e =
    ap (λ r. elim r [ compiled a c ↦ f a c | failed e ↦ failed e | no_rounds ↦ no_rounds ]) e

module _ (line : Text) (rest : List Text) (x : Exe) (plain : IsPlain line) where
  pub read_bind :
      {B : Type 0} (f : Option Text → M B)
      → (read_line >>= f) (at_lines (line ∷ rest) x) ≡ f (some line) (at_lines rest x)
  read_bind f = bind-compiled read_line f _ _ _ (read_plain line rest x plain)

pub query_loop-text :
    (rounds : ℕ) (text : Text) (lines rest : List Text) (x : Exe)
    → AreQueryLines lines
    → 2 * length (lines ++ (codes "ENDQUERY" ∷ rest)) + 1 ≤ rounds
    → query_loop rounds text (at_lines (lines ++ (codes "ENDQUERY" ∷ rest)) x)
      ≡ compiled (query_text text lines) (at_lines rest x)
unfolding query_loop query_text is_prefix trim trim_start is_skipped
query_loop-text zero text lines rest x q h = absurd (omega arith)
query_loop-text (suc rounds) text [] rest x q h = read_bind (codes "ENDQUERY") rest x (refl, refl) _
query_loop-text (suc rounds) text (line ∷ lines) rest x q h =
    read_bind line (lines ++ (codes "ENDQUERY" ∷ rest)) x q.0 _
    ∙ rw q.1 (query_loop-text rounds _ lines rest x q.2 (omega arith))

head_of-bracket : (s : Text) → head_of (91 ∷ s) ≡ other_head
unfolding head_of
head_of-bracket s = simp (λ (c : ℕ) (t : Text) (h : (91 == c) ≡ false). is_prefix-first c 91 t s h)

-- A line that starts a block is no header of a section.
starts_no_section :
    (line : Text) (head : Head)
    → head_of line ≡ head
    → head ≢ other_head
    → model_transform line ≡ none
unfolding model_transform is_prefix
starts_no_section [] head e ne = refl
starts_no_section (c ∷ s) head e ne = elim (Bool-cases (c == 91)) [
  | inl is_bracket ↦
      let same : c ≡ 91 = ground arith in
      absurd (ne (sym e ∙ ap (λ d. head_of (d ∷ s)) same ∙ head_of-bracket s))
  | inr other ↦ simp (λ (t : Text). is_prefix-first 91 c t s other)
]

pub first_line-none : (b : Block) → IsBlock b → model_transform (first_line b) ≡ none
first_line-none (if_block line yes_blocks no_blocks) h = starts_no_section line _ h.1 cc
first_line-none (query_block line text) h = starts_no_section line _ h.1 cc
first_line-none (while_block line blocks) h = starts_no_section line _ h.1 cc
first_line-none (foreach_block line blocks) h = starts_no_section line _ h.1 cc
first_line-none (assignment_block line) h = starts_no_section line _ h.1 cc
