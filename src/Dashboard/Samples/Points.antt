-- ===== src/Dashboard/Samples/Points.antt =====
-- The data of assets/js/chart-data.js.
use toyhoodle.Prelude.{ℕ, ◌+◌, ◌*◌, ◌/◌, List, [], ◌∷◌}
use toyhoodle.Dashboard.Value.{Value, num, str, array, object, strs, nums}

-- The results of `Math.random()`, in the order of the calls: the n-th is `draw n / scale`.
pub record Source : Type 0 where
  pub draw : ℕ → ℕ
  pub scale : ℕ

-- The n-th call of `randomScalingFactor`: `Math.round(x)` is the integer part of `x + 1/2`.
unfoldable pub random_scaling_factor : Source → ℕ → ℕ
random_scaling_factor s n = (2 * (s.draw n * 1000) + s.scale) / (2 * s.scale)

-- Seven calls in a row, the first of which is the n-th.
unfoldable pub seven : Source → ℕ → List ℕ
seven s n =
    random_scaling_factor s n
    ∷ random_scaling_factor s (n + 1)
    ∷ random_scaling_factor s (n + 2)
    ∷ random_scaling_factor s (n + 3)
    ∷ random_scaling_factor s (n + 4)
    ∷ random_scaling_factor s (n + 5)
    ∷ random_scaling_factor s (n + 6)
    ∷ []

-- `lineChartData`, with the calls of `randomScalingFactor` numbered as they are made.
unfoldable pub line_chart_data : Source → Value
unfolding seven
line_chart_data s = object (
    ("labels", strs ("January" ∷ "February" ∷ "March" ∷ "April" ∷ "May" ∷ "June" ∷ "July" ∷ []))
    ∷ (
      "datasets",
      array (
          (object (
            ("label", str "My First dataset")
            ∷ ("fillColor", str "rgba(220,220,220,0.2)")
            ∷ ("strokeColor", str "rgba(220,220,220,1)")
            ∷ ("pointColor", str "rgba(220,220,220,1)")
            ∷ ("pointStrokeColor", str "#fff")
            ∷ ("pointHighlightFill", str "#fff")
            ∷ ("pointHighlightStroke", str "rgba(220,220,220,1)")
            ∷ ("data", nums (seven s 0))
            ∷ []))
          ∷ (object (
              ("label", str "My Second dataset")
              ∷ ("fillColor", str "rgba(48, 164, 255, 0.2)")
              ∷ ("strokeColor", str "rgba(48, 164, 255, 1)")
              ∷ ("pointColor", str "rgba(48, 164, 255, 1)")
              ∷ ("pointStrokeColor", str "#fff")
              ∷ ("pointHighlightFill", str "#fff")
              ∷ ("pointHighlightStroke", str "rgba(48, 164, 255, 1)")
              ∷ ("data", nums (seven s 7))
              ∷ []))
          ∷ []),
    )
    ∷ [])

-- `barChartData`, with the calls of `randomScalingFactor` numbered as they are made.
unfoldable pub bar_chart_data : Source → Value
unfolding seven
bar_chart_data s = object (
    ("labels", strs ("January" ∷ "February" ∷ "March" ∷ "April" ∷ "May" ∷ "June" ∷ "July" ∷ []))
    ∷ (
      "datasets",
      array (
          (object (
            ("fillColor", str "rgba(220,220,220,0.5)")
            ∷ ("strokeColor", str "rgba(220,220,220,0.8)")
            ∷ ("highlightFill", str "rgba(220,220,220,0.75)")
            ∷ ("highlightStroke", str "rgba(220,220,220,1)")
            ∷ ("data", nums (seven s 14))
            ∷ []))
          ∷ (object (
              ("fillColor", str "rgba(48, 164, 255, 0.2)")
              ∷ ("strokeColor", str "rgba(48, 164, 255, 0.8)")
              ∷ ("highlightFill", str "rgba(48, 164, 255, 0.75)")
              ∷ ("highlightStroke", str "rgba(48, 164, 255, 1)")
              ∷ ("data", nums (seven s 21))
              ∷ []))
          ∷ []),
    )
    ∷ [])

-- `pieData`
unfoldable pub pie_data : Value
pie_data = array (
    (object (
      ("value", num 300)
      ∷ ("color", str "#30a5ff")
      ∷ ("highlight", str "#62b9fb")
      ∷ ("label", str "Blue")
      ∷ []))
    ∷ (object (
        ("value", num 50)
        ∷ ("color", str "#ffb53e")
        ∷ ("highlight", str "#fac878")
        ∷ ("label", str "Orange")
        ∷ []))
    ∷ (object (
        ("value", num 100)
        ∷ ("color", str "#1ebfae")
        ∷ ("highlight", str "#3cdfce")
        ∷ ("label", str "Teal")
        ∷ []))
    ∷ (object (
        ("value", num 120)
        ∷ ("color", str "#f9243f")
        ∷ ("highlight", str "#f6495f")
        ∷ ("label", str "Red")
        ∷ []))
    ∷ [])

-- `doughnutData`
unfoldable pub doughnut_data : Value
doughnut_data = array (
    (object (
      ("value", num 300)
      ∷ ("color", str "#30a5ff")
      ∷ ("highlight", str "#62b9fb")
      ∷ ("label", str "Blue")
      ∷ []))
    ∷ (object (
        ("value", num 50)
        ∷ ("color", str "#ffb53e")
        ∷ ("highlight", str "#fac878")
        ∷ ("label", str "Orange")
        ∷ []))
    ∷ (object (
        ("value", num 100)
        ∷ ("color", str "#1ebfae")
        ∷ ("highlight", str "#3cdfce")
        ∷ ("label", str "Teal")
        ∷ []))
    ∷ (object (
        ("value", num 120)
        ∷ ("color", str "#f9243f")
        ∷ ("highlight", str "#f6495f")
        ∷ ("label", str "Red")
        ∷ []))
    ∷ [])
