-- ===== src/Cube/Compile/Blocks.antt =====
-- Scripts as trees of blocks, each with its own line and the blocks in it: the lines that spell a
-- block, and the action that it stands for.
use toyhoodle.Prelude.{◌≡◌, false, List, [], ◌∷◌, ◌++◌, drop}
use toyhoodle.Cube.ParamChange.{Text, is_prefix}
use toyhoodle.Cube.Text.{codes, trim}
use toyhoodle.Cube.Compile.{head_of, if_head, query_head, while_head, foreach_head, assignment_head}
use toyhoodle.Cube.Compile.Names.{
  Action, Actions, nil, cons, if_, while, query, foreach, E, ◌>>=◌, answer, query_header,
  foreach_header, put_assignment,
}
use toyhoodle.Cube.Compile.State.{is_skipped}

-- The second part of an IF is what stands behind ELSE; without it there is no ELSE.
mutual
  pub data Block : Type 0 where
    if_block : Text → Blocks → Blocks → Block
    query_block : Text → List Text → Block
    while_block : Text → Blocks → Block
    foreach_block : Text → Blocks → Block
    assignment_block : Text → Block

  pub data Blocks : Type 0 where
    end : Blocks
    block : Block → Blocks → Blocks

abbrev pub first_line : Block → Text
first_line (if_block line _ _) = line
first_line (query_block line _) = line
first_line (while_block line _) = line
first_line (foreach_block line _) = line
first_line (assignment_block line) = line

-- The lines of a block behind its first, and those that come behind the block.
unfoldable mutual
  pub lines_behind : Block → List Text → List Text
  lines_behind (if_block line yes_blocks no_blocks) rest =
      lines_of yes_blocks (else_lines no_blocks (codes "ENDIF" ∷ rest))
  lines_behind (query_block line text) rest = text ++ (codes "ENDQUERY" ∷ rest)
  lines_behind (while_block line blocks) rest = lines_of blocks (codes "ENDWHILE" ∷ rest)
  lines_behind (foreach_block line blocks) rest = lines_of blocks (codes "ENDFOREACH" ∷ rest)
  lines_behind (assignment_block line) rest = rest

  pub lines_of : Blocks → List Text → List Text
  lines_of end rest = rest
  lines_of (block b bs) rest = first_line b ∷ lines_behind b (lines_of bs rest)

  pub else_lines : Blocks → List Text → List Text
  else_lines end rest = rest
  else_lines (block b bs) rest = codes "ELSE" ∷ first_line b ∷ lines_behind b (lines_of bs rest)

-- The text of a query, behind what was read of it.
unfoldable pub query_text : Text → List Text → Text
query_text text [] = text
query_text text (line ∷ lines) = query_text (text ++ codes " " ++ line ++ codes " ") lines

-- The action of a block, with the names as they are when it is reached.
unfoldable mutual
  pub build : Block → E Action
  build (if_block line yes_blocks no_blocks) = do
    yes_actions ← build_all yes_blocks
    no_actions ← build_all no_blocks
    answer (if_ (trim (drop 2 line)) yes_actions no_actions)
  build (query_block line text) = do
    header ← query_header line
    answer (query (query_text [] text) header.0 header.1)
  build (while_block line blocks) = do
    actions ← build_all blocks
    answer (while (trim (drop 5 line)) actions)
  build (foreach_block line blocks) = do
    header ← foreach_header line
    actions ← build_all blocks
    answer (foreach header.0 header.1 actions)
  build (assignment_block line) = put_assignment line

  pub build_all : Blocks → E Actions
  build_all end = answer nil
  build_all (block b bs) = do a ← build b; actions ← build_all bs; answer (cons a actions)

abbrev pub and_then : {A B : Type 0} → E A → (A → E B) → E B
and_then m f = m >>= f

-- `readLien` gives the line as it is.
abbrev pub IsPlain : Text → Type 0
IsPlain line = (trim line ≡ line) × (is_skipped line ≡ false)

abbrev pub AreQueryLines : List Text → Type 0
AreQueryLines [] = Unit
AreQueryLines (line ∷ lines) =
    IsPlain line × (is_prefix (codes "ENDQUERY") line ≡ false) × AreQueryLines lines

-- Every line says which block it starts.
abbrev mutual
  pub IsBlock : Block → Type 0
  IsBlock (if_block line yes_blocks no_blocks) =
      IsPlain line × (head_of line ≡ if_head) × AreBlocks yes_blocks × AreBlocks no_blocks
  IsBlock (query_block line text) = IsPlain line × (head_of line ≡ query_head) × AreQueryLines text
  IsBlock (while_block line blocks) = IsPlain line × (head_of line ≡ while_head) × AreBlocks blocks
  IsBlock (foreach_block line blocks) =
      IsPlain line × (head_of line ≡ foreach_head) × AreBlocks blocks
  IsBlock (assignment_block line) = IsPlain line × (head_of line ≡ assignment_head)

  pub AreBlocks : Blocks → Type 0
  AreBlocks end = Unit
  AreBlocks (block b bs) = IsBlock b × AreBlocks bs
