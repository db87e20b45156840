-- ===== src/Cube/Compile/Rounds.antt =====
-- How many lines the parts of a compilation leave, and that none of them runs out of rounds.
use toyhoodle.Prelude.{
  ℕ, zero, suc, ◌+◌, ◌*◌, ◌≤◌, ◌<◌, ◌≡◌, refl, Option, none, some, List, [], ◌∷◌, arith, length,
  Bool-cases, inl, inr,
}
use toyhoodle.Cube.ParamChange.{Text, is_prefix}
use toyhoodle.Cube.Text.{codes}
use toyhoodle.Cube.Compile.Names.{Built, built, wrong, E}
use toyhoodle.Cube.Compile.State.{
  Compiler, Result, compiled, failed, no_rounds, M, next_line, take_line, read_line, settle, ask,
}
use toyhoodle.Cube.Compile.{query_loop}

abbrev pub HasRounds : {A : Type 0} → ℕ → Result A → Type 0
HasRounds n (compiled a c) = length c.lines ≤ n
HasRounds n (failed e) = Unit
HasRounds n no_rounds = ⊥

-- The compilation has not run out of rounds, and leaves at most `n` lines.
pub record Ends {A : Type 0} (n : ℕ) (r : Result A) : Type 0 where
  pub ends : HasRounds n r

pub weaken : {A : Type 0} {k n : ℕ} {r : Result A} → k ≤ n → Ends k r → Ends n r
weaken {r = compiled a c} h e = record { ends = let d = e.ends in omega arith }
weaken {r = failed x} h e = record { ends = tt }
weaken {r = no_rounds} h e = absurd (e.ends)

pub bind_Ends :
    {A B : Type 0} (k n : ℕ) (f : A → M B) (r : Result A)
    → Ends k r
    → ((a : A) (c : Compiler) → length c.lines ≤ k → Ends n (f a c))
    → Ends n (elim r [ compiled a c ↦ f a c | failed e ↦ failed e | no_rounds ↦ no_rounds ])
bind_Ends k n f (compiled a c) h next = next a c h.ends
bind_Ends k n f (failed e) h next = record { ends = tt }
bind_Ends k n f no_rounds h next = absurd (h.ends)

pub next_line-lt :
    (ls : List Text) (line : Text) (rest : List Text)
    → next_line ls ≡ some (line, rest)
    → length rest < length ls
unfolding next_line
next_line-lt [] line rest e = cc
next_line-lt (raw ∷ ls) line rest e = ground (arith, next_line-lt ls line rest)

-- A read either finds nothing, or takes a line at least.
pub read_Ends :
    {B : Type 0} (n : ℕ) (f : Option Text → M B) (c : Compiler)
    → ((c' : Compiler) → length c'.lines ≤ 0 → Ends n (f none c'))
    → ((line : Text) (c' : Compiler) → length c'.lines < length c.lines → Ends n (f (some line) c'))
    → Ends n (elim (read_line c) [
      | compiled a c' ↦ f a c'
      | failed e ↦ failed e
      | no_rounds ↦ no_rounds
    ])
unfolding read_line
read_Ends n f c missing found = go (next_line c.lines) refl
  where
    go :
        (o : Option (Text × List Text))
        → next_line c.lines ≡ o
        → Ends n (elim (take_line o c) [
          | compiled a c' ↦ f a c'
          | failed e ↦ failed e
          | no_rounds ↦ no_rounds
        ])
    go none e = missing (record c { lines = [] }) (omega arith)
    go (some (line, rest)) e =
        found line (record c { lines = rest }) (next_line-lt c.lines line rest e)

-- What reads no line.
pub record Stays {A : Type 0} (m : M A) : Type 0 where
  pub stays : (c : Compiler) → Ends (length c.lines) (m c)

pub after :
    {A B : Type 0} {n : ℕ} {m : M A} {f : A → M B} (c : Compiler)
    → Stays m
    → ((a : A) (c' : Compiler) → length c'.lines ≤ length c.lines → Ends n (f a c'))
    → Ends n (elim (m c) [ compiled a c' ↦ f a c' | failed e ↦ failed e | no_rounds ↦ no_rounds ])
after {n} {m} {f} c h next = bind_Ends (length c.lines) n f (m c) (h.stays c) next

pub gives : {A : Type 0} {n : ℕ} (a : A) (c : Compiler) → length c.lines ≤ n → Ends n (compiled a c)
gives a c h = record { ends = h }

pub settle-Ends : {A : Type 0} (c : Compiler) (r : Built A) → Ends (length c.lines) (settle c r)
settle-Ends c (built a x) = record { ends = omega arith }
settle-Ends c (wrong e) = record { ends = tt }

-- A question to Exe reads no line.
pub ask-Stays : {A : Type 0} (m : E A) → Stays (ask m)
ask-Stays m = record { stays = λ c. settle-Ends c (m c.exe) }

pub query_loop-Ends :
    (rounds : ℕ) (text : Text) (c : Compiler)
    → 2 * length c.lines + 1 ≤ rounds
    → Ends (length c.lines) (query_loop rounds text c)
unfolding query_loop
query_loop-Ends zero text c h = absurd (omega arith)
query_loop-Ends (suc rounds) text c h =
    read_Ends _ _ c (λ c' h'. record { ends = tt })
      λ line c' h'. elim (Bool-cases (is_prefix (codes "ENDQUERY") line)) [
        | inl end ↦ rw end (gives _ c' (omega arith))
        | inr more ↦ rw more (weaken (omega arith) (query_loop-Ends rounds _ c' (omega arith)))
      ]
