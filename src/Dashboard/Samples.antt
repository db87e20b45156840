-- ===== src/Dashboard/Samples.antt =====
-- assets/js/chart-data.js: random sample data, and the handler of `load` that draws it.
pub mod Points
pub mod Bounds
pub mod Onload
use toyhoodle.Prelude.{String, true, [], ◌∷◌}
use toyhoodle.Dashboard.Value.{Value, bool, object}
use toyhoodle.Dashboard.Page.{Browser, Script, ChartKind, chart, ◌>>◌, perform, get_context}
use Points.{Source, line_chart_data, bar_chart_data, pie_data, doughnut_data}

-- `{responsive: true}`
abbrev pub responsive_options : Value
responsive_options = object (("responsive", bool true) ∷ [])

-- Two statements: the context of the canvas, and the chart on it.
unfoldable pub draw_on : Browser → ChartKind → String → Value → Script
draw_on b kind id points = get_context b id >> perform b (chart kind id points responsive_options)

-- `window.onload`
unfoldable pub onload : Browser → Source → Script
unfolding draw_on
onload b s =
    draw_on b ChartKind.line "line-chart" (line_chart_data s)
    >> draw_on b ChartKind.bar "bar-chart" (bar_chart_data s)
    >> draw_on b ChartKind.doughnut "doughnut-chart" doughnut_data
    >> draw_on b ChartKind.pie "pie-chart" pie_data
