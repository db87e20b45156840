-- ===== src/Example/Charts.antt =====
-- example/assets/js/chartjs.js: six callbacks of `$(document).ready`, each of which draws one chart.
pub mod Shapes
pub mod Grids
pub mod Circles
use toyhoodle.Prelude.{List, [], ◌∷◌}
use toyhoodle.Dashboard.Page.{Browser, ChartKind, chart}
use toyhoodle.Example.Document.{Action, ◌>>◌, make_responsive, context_of, invoke, new_chart}
use Grids.{
  line_chart_options, line_chart_points, bar_chart_options, bar_chart_points, radar_chart_options,
  radar_chart_points, jumbotron_chart_options, jumbotron_chart_points,
}
use Circles.{polar_chart_options, polar_chart_segments, pie_chart_options, pie_chart_segments}

unfoldable pub paint_line : Browser → Action
unfolding make_responsive context_of invoke
paint_line b =
    make_responsive b
    >> context_of b "line-chart"
    >> new_chart b ChartKind.line "line-chart" line_chart_points line_chart_options

unfoldable pub paint_bar : Browser → Action
unfolding make_responsive context_of invoke
paint_bar b =
    make_responsive b
    >> context_of b "bar-chart"
    >> new_chart b ChartKind.bar "bar-chart" bar_chart_points bar_chart_options

unfoldable pub paint_radar : Browser → Action
unfolding make_responsive context_of invoke
paint_radar b =
    make_responsive b
    >> context_of b "radar-chart"
    >> new_chart b ChartKind.radar "radar-chart" radar_chart_points radar_chart_options

unfoldable pub paint_polar_area : Browser → Action
unfolding make_responsive context_of invoke
paint_polar_area b =
    make_responsive b
    >> context_of b "polar-area-chart"
    >> new_chart b ChartKind.polar_area "polar-area-chart" polar_chart_segments polar_chart_options

unfoldable pub paint_pie : Browser → Action
unfolding make_responsive context_of invoke
paint_pie b =
    make_responsive b
    >> context_of b "pie-chart"
    >> new_chart b ChartKind.pie "pie-chart" pie_chart_segments pie_chart_options

unfoldable pub paint_jumbotron : Browser → Action
unfolding make_responsive context_of invoke
paint_jumbotron b =
    make_responsive b
    >> context_of b "jumbotron-line-chart"
    >> new_chart b ChartKind.line "jumbotron-line-chart" jumbotron_chart_points
        jumbotron_chart_options

-- The callbacks in the order in which they are registered.
unfoldable pub paintings : Browser → List Action
unfolding paint_line paint_bar paint_radar paint_polar_area paint_pie paint_jumbotron
paintings b =
    paint_line b
    ∷ paint_bar b
    ∷ paint_radar b
    ∷ paint_polar_area b
    ∷ paint_pie b
    ∷ paint_jumbotron b
    ∷ []
