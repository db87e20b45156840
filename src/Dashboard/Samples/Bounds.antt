-- ===== src/Dashboard/Samples/Bounds.antt =====
-- The random sample data of chart-data.js stays in the range of the charts' scale.
use toyhoodle.Prelude.{ℕ, ◌≤◌, ◌<◌, ◌≡◌, Bool, true, false, arith, leb}
use toyhoodle.Dashboard.Value.{Value, num, get, elements, all}
use toyhoodle.Dashboard.Samples.Points.{
  Source, random_scaling_factor, line_chart_data, bar_chart_data,
}

abbrev is_at_most : ℕ → Value → Bool
is_at_most m (num n) = leb n m
is_at_most m _ = false

-- Every point of every dataset is a number of at most `m`.
abbrev pub points_at_most : ℕ → Value → Bool
points_at_most m v =
    all (λ d. all (is_at_most m) (elements (get "data" d))) (elements (get "datasets" v))

-- `Math.round(Math.random() * 1000)` is at most 1000: the random number is below 1.
pub random_scaling_factor-le :
    (s : Source) (n : ℕ) → s.draw n < s.scale → random_scaling_factor s n ≤ 1000
unfolding random_scaling_factor
random_scaling_factor-le s n h = grind arith

random_scaling_factor-leb :
    (s : Source) (n : ℕ) → s.draw n < s.scale → leb (random_scaling_factor s n) 1000 ≡ true
random_scaling_factor-leb s n h = ground (arith, random_scaling_factor-le s n)

-- Where each random number is below 1: all points of the line chart and of the bar chart are numbers
-- of at most 1000.
pub chart_data-points_at_most :
    (s : Source)
    → ((n : ℕ) → s.draw n < s.scale)
    → (points_at_most 1000 (line_chart_data s) ≡ true)
      × (points_at_most 1000 (bar_chart_data s) ≡ true)
unfolding line_chart_data bar_chart_data
chart_data-points_at_most s h =
    let le = λ (n : ℕ). random_scaling_factor-leb s n (h n) in (simp (le), simp (le))
