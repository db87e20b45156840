-- ===== src/Example/Samples.antt =====
-- example/assets/js/chart-data.js: the script draws random numbers when it is loaded, and its handler
-- of `load` paints them.
pub mod Random
use toyhoodle.Prelude.{ℕ, String, true, List, [], ◌∷◌}
use toyhoodle.Dashboard.Value.{Value, bool, num, str, array, object, strs, nums}
use toyhoodle.Dashboard.Page.{Browser, ChartKind, chart}
use toyhoodle.Dashboard.Samples.Points.{Source}
use toyhoodle.Example.Document.{Action, ◌>>◌, context_of, invoke, new_chart}
use Random.{Draws, ◌>>=◌, give, random_scaling_factor, seven_draws}

abbrev pub months : Value
months = strs ("January" ∷ "February" ∷ "March" ∷ "April" ∷ "May" ∷ "June" ∷ "July" ∷ [])

-- A dataset of `lineChartData`: its label, the colour below the line, that of the line, its numbers.
abbrev line_dataset : String → String → String → List ℕ → Value
line_dataset label fill color points = object (
    ("label", str label)
    ∷ ("fillColor", str fill)
    ∷ ("strokeColor", str color)
    ∷ ("pointColor", str color)
    ∷ ("pointStrokeColor", str "#fff")
    ∷ ("pointHighlightFill", str "#fff")
    ∷ ("pointHighlightStroke", str color)
    ∷ ("data", nums points)
    ∷ [])

-- A dataset of `barChartData`: its four colours and its numbers.
abbrev bar_dataset : String → String → String → String → List ℕ → Value
bar_dataset fill stroke highlight edge points = object (
    ("fillColor", str fill)
    ∷ ("strokeColor", str stroke)
    ∷ ("highlightFill", str highlight)
    ∷ ("highlightStroke", str edge)
    ∷ ("data", nums points)
    ∷ [])

abbrev labelled : List Value → Value
labelled datasets = object (("labels", months) ∷ ("datasets", array datasets) ∷ [])

-- `lineChartData`: the numbers of the first dataset are drawn before those of the second.
unfoldable pub draw_line_data : Source → Draws Value
draw_line_data s = do
  first ← seven_draws s
  second ← seven_draws s
  give (
      labelled (
        line_dataset "My First dataset" "rgba(220,220,220,0.2)" "rgba(220,220,220,1)" first
        ∷ line_dataset "My Second dataset" "rgba(48, 164, 255, 0.2)" "rgba(48, 164, 255, 1)" second
        ∷ []))

-- `barChartData`
unfoldable pub draw_bar_data : Source → Draws Value
draw_bar_data s = do
  first ← seven_draws s
  second ← seven_draws s
  give (
      labelled (
        bar_dataset "rgba(220,220,220,0.5)" "rgba(220,220,220,0.8)" "rgba(220,220,220,0.75)"
          "rgba(220,220,220,1)" first
        ∷ bar_dataset "rgba(48, 164, 255, 0.2)" "rgba(48, 164, 255, 0.8)" "rgba(48, 164, 255, 0.75)"
            "rgba(48, 164, 255, 1)" second
        ∷ []))

abbrev slice : ℕ → String → String → String → Value
slice value color highlight label = object (
    ("value", num value)
    ∷ ("color", str color)
    ∷ ("highlight", str highlight)
    ∷ ("label", str label)
    ∷ [])

-- `pieData`
unfoldable pub pie_slices : Value
pie_slices = array (
    slice 300 "#30a5ff" "#62b9fb" "Blue"
    ∷ slice 50 "#ffb53e" "#fac878" "Orange"
    ∷ slice 100 "#1ebfae" "#3cdfce" "Teal"
    ∷ slice 120 "#f9243f" "#f6495f" "Red"
    ∷ [])

-- `doughnutData`
unfoldable pub doughnut_slices : Value
doughnut_slices = array (
    slice 300 "#30a5ff" "#62b9fb" "Blue"
    ∷ slice 50 "#ffb53e" "#fac878" "Orange"
    ∷ slice 100 "#1ebfae" "#3cdfce" "Teal"
    ∷ slice 120 "#f9243f" "#f6495f" "Red"
    ∷ [])

-- The global variables that hold drawn data.
pub record Globals : Type 0 where
  pub line_chart_data : Value
  pub bar_chart_data : Value

-- The statements of the script that draw, as it is loaded.
unfoldable pub load_script : Source → Draws Globals
load_script s = do
  line ← draw_line_data s
  bar ← draw_bar_data s
  give (record { line_chart_data = line; bar_chart_data = bar })

abbrev pub responsive : Value
responsive = object (("responsive", bool true) ∷ [])

-- `window.onload`, with the globals that it reads.
unfoldable pub paint_samples : Browser → Globals → Action
unfolding context_of invoke
paint_samples b g =
    (context_of b "line-chart"
      >> new_chart b ChartKind.line "line-chart" g.line_chart_data responsive)
    >> (context_of b "bar-chart"
        >> new_chart b ChartKind.bar "bar-chart" g.bar_chart_data responsive)
    >> (context_of b "doughnut-chart"
        >> new_chart b ChartKind.doughnut "doughnut-chart" doughnut_slices responsive)
    >> (context_of b "pie-chart" >> new_chart b ChartKind.pie "pie-chart" pie_slices responsive)
