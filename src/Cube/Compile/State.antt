-- ===== src/Cube/Compile/State.antt =====
-- The state of a compilation: the lines that are left, and Exe.
use toyhoodle.Prelude.{Bool, true, Option, none, some, List, [], ◌∷◌, if◌then◌else◌}
use toyhoodle.Cube.ParamChange.{Text, is_prefix}
use toyhoodle.Cube.Text.{codes, trim}
use toyhoodle.Cube.Compile.Names.{Exe, Failure, Built, built, wrong, E}

-- `lines` are those that `readLine` still gives.
pub record Compiler : Type 0 where
  pub lines : List Text
  pub exe : Exe

-- What a compilation with a number of rounds comes to.
pub data Result (A : Type 0) : Type 0 where
  compiled : A → Compiler → Result A
  failed : Failure → Result A
  no_rounds : Result A

abbrev pub M : Type 0 → Type 0
M A = Compiler → Result A

infixl 5 ◌>>=◌
abbrev pub ◌>>=◌ : {A B : Type 0} → M A → (A → M B) → M B
◌>>=◌ m f c = elim (m c) [ compiled a c' ↦ f a c' | failed e ↦ failed e | no_rounds ↦ no_rounds ]

abbrev pub give : {A : Type 0} → A → M A
give a c = compiled a c

abbrev pub fail : {A : Type 0} → Failure → M A
fail e c = failed e

abbrev pub stop : {A : Type 0} → M A
stop c = no_rounds

unfoldable pub is_skipped : Text → Bool
unfolding is_prefix
is_skipped [] = true
is_skipped (c ∷ s) = is_prefix (codes "#") (c ∷ s)

-- The next line that is neither empty nor a comment, trimmed, and the lines behind it.
unfoldable pub next_line : List Text → Option (Text × List Text)
next_line [] = none
next_line (raw ∷ rest) =
    let more = next_line rest in if is_skipped (trim raw) then more else some (trim raw, rest)

abbrev pub take_line : Option (Text × List Text) → M (Option Text)
take_line none c = compiled none (record c { lines = [] })
take_line (some (line, rest)) c = compiled (some line) (record c { lines = rest })

-- `readLien`
unfoldable pub read_line : M (Option Text)
read_line c = take_line (next_line c.lines) c

-- The names behind an answer replace those of the compiler.
abbrev pub settle : {A : Type 0} → Compiler → Built A → Result A
settle c (built a x) = compiled a (record c { exe = x })
settle c (wrong e) = failed e

abbrev pub ask : {A : Type 0} → E A → M A
ask m c = settle c (m c.exe)
