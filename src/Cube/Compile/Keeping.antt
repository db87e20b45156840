-- ===== src/Cube/Compile/Keeping.antt =====
-- The parts of a compilation keep the objects that there are, and read_line and QUERY add none.
use toyhoodle.Prelude.{
  ℕ, zero, suc, ◌≤◌, true, false, Option, none, some, List, ◌++◌, arith, length, Bool-cases, inl,
  inr,
}
use toyhoodle.Cube.ParamChange.{Text, is_prefix}
use toyhoodle.Cube.Text.{codes}
use toyhoodle.Cube.Compile.Names.{Built, built, wrong, Failure}
use toyhoodle.Cube.Compile.State.{
  Compiler, Result, compiled, failed, no_rounds, M, give, fail, settle, read_line, next_line,
  take_line,
}
use toyhoodle.Cube.Compile.{query_loop}
use toyhoodle.Cube.Compile.Addresses.{HasObjects, Fits, Anything}

abbrev pub IsKept : {A : Type 0} → (ℕ → A → Type 0) → ℕ → Result A → Type 0
IsKept P n (compiled a c) = HasObjects c.exe × (n ≤ length c.exe.store) × P (length c.exe.store) a
IsKept P n (failed e) = Unit
IsKept P n no_rounds = Unit

-- What was compiled, if anything, fits the objects there are, and these are at least `n`.
pub record Keeps {A : Type 0} (P : ℕ → A → Type 0) (n : ℕ) (r : Result A) : Type 0 where
  pub keeps : IsKept P n r

pub bind_Keeps :
    {A B : Type 0} (P : ℕ → A → Type 0) (Q : ℕ → B → Type 0) (k n : ℕ) (f : A → M B) (r : Result A)
    → Keeps P k r
    → ((a : A) (c : Compiler)
        → HasObjects c.exe
        → k ≤ length c.exe.store
        → P (length c.exe.store) a
        → Keeps Q n (f a c))
    → Keeps Q n (elim r [ compiled a c ↦ f a c | failed e ↦ failed e | no_rounds ↦ no_rounds ])
bind_Keeps P Q k n f (compiled a c) h next = let d = h.keeps in next a c d.0 d.1 d.2
bind_Keeps P Q k n f (failed e) h next = record { keeps = tt }
bind_Keeps P Q k n f no_rounds h next = record { keeps = tt }

pub keeping :
    {A : Type 0} (P : ℕ → A → Type 0) (n : ℕ) (a : A) (c : Compiler)
    → HasObjects c.exe
    → n ≤ length c.exe.store
    → P (length c.exe.store) a
    → Keeps P n (compiled a c)
keeping P n a c h le p = record { keeps = (h, le, p) }

pub weaken :
    {A : Type 0} (P : ℕ → A → Type 0) {k n : ℕ} {r : Result A} → n ≤ k → Keeps P k r → Keeps P n r
weaken P {r = compiled a c} h d = let e = d.keeps in record { keeps = (e.0, omega arith, e.2) }
weaken P {r = failed e} h d = record { keeps = tt }
weaken P {r = no_rounds} h d = record { keeps = tt }

pub settle-Keeps :
    {A : Type 0} (P : ℕ → A → Type 0) (n : ℕ) (c : Compiler) (r : Built A)
    → Fits P n r
    → Keeps P n (settle c r)
settle-Keeps P n c (built a x) h = record { keeps = h.fits }
settle-Keeps P n c (wrong e) h = record { keeps = tt }

-- A read leaves the names as they are.
pub read_line-Keeps :
    (c : Compiler) → HasObjects c.exe → Keeps Anything (length c.exe.store) (read_line c)
unfolding read_line
read_line-Keeps c h = go (next_line c.lines)
  where
    go : (o : Option (Text × List Text)) → Keeps Anything (length c.exe.store) (take_line o c)
    go none = record { keeps = (h, omega arith, tt) }
    go (some (line, rest)) = record { keeps = (h, omega arith, tt) }

pub query_loop-Keeps :
    (rounds : ℕ) (text : Text) (c : Compiler)
    → HasObjects c.exe
    → Keeps Anything (length c.exe.store) (query_loop rounds text c)
unfolding query_loop
query_loop-Keeps zero text c h = record { keeps = tt }
query_loop-Keeps (suc rounds) text c h =
    bind_Keeps Anything _ (length c.exe.store) _ _ _ (read_line-Keeps c h) λ next c1 h1 l1 any.
      after_line (λ t. query_loop rounds t) (λ t c2 h2. query_loop-Keeps rounds t c2 h2) next c1 h1
        l1
  where
    after_line :
        (loop : Text → M Text)
        → ((t : Text) (c2 : Compiler)
            → HasObjects c2.exe
            → Keeps Anything (length c2.exe.store) (loop t c2))
        → (next : Option Text) (c1 : Compiler) → HasObjects c1.exe
        → length c.exe.store ≤ length c1.exe.store
        → Keeps Anything (length c.exe.store) (
            let m : M Text = elim next [
              | none ↦ fail Failure.not_endquery
              | some s ↦ elim (is_prefix (codes "ENDQUERY") s) [
                | true ↦ give text
                | false ↦ loop (text ++ codes " " ++ s ++ codes " ")
              ]
            ] in
            m c1)
    after_line loop more none c1 h1 l1 = record { keeps = tt }
    after_line loop more (some s) c1 h1 l1 = elim (Bool-cases (is_prefix (codes "ENDQUERY") s)) [
      | inl is_end ↦ rw is_end (keeping Anything _ _ c1 h1 l1 tt)
      | inr other ↦ rw other (weaken Anything l1 (more _ c1 h1))
    ]
