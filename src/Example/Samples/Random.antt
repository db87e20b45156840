-- ===== src/Example/Samples/Random.antt =====
-- `Math.random` as a stream that is read from the front: an expression with draws in it takes the
-- number of the next draw, and gives its value with the number of the draw after it.
use toyhoodle.Prelude.{ℕ, ◌+◌, ◌*◌, ◌/◌, List, [], ◌∷◌}
use toyhoodle.Dashboard.Samples.Points.{Source}

abbrev pub Draws : Type 0 → Type 0
Draws A = ℕ → A × ℕ

infixl 5 ◌>>=◌
abbrev pub ◌>>=◌ : {A B : Type 0} → Draws A → (A → Draws B) → Draws B
◌>>=◌ m f n = let (a, n') = m n in f a n'

abbrev pub give : {A : Type 0} → A → Draws A
give a n = (a, n)

-- `Math.random()`, times the scale of the source.
abbrev math_random : Source → Draws ℕ
math_random s n = (s.draw n, n + 1)

-- `Math.round(Math.random() * 1000)`, rounded as `Math.round` does: to the integer part of x + 1/2.
unfoldable pub random_scaling_factor : Source → Draws ℕ
random_scaling_factor s = do r ← math_random s; give ((r * 1000 * 2 + s.scale) / (s.scale * 2))

-- The array of seven calls, from left to right.
unfoldable pub seven_draws : Source → Draws (List ℕ)
seven_draws s = do
  a ← random_scaling_factor s
  b ← random_scaling_factor s
  c ← random_scaling_factor s
  d ← random_scaling_factor s
  e ← random_scaling_factor s
  f ← random_scaling_factor s
  g ← random_scaling_factor s
  give (a ∷ b ∷ c ∷ d ∷ e ∷ f ∷ g ∷ [])
