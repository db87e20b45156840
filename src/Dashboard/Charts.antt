-- ===== src/Dashboard/Charts.antt =====
-- assets/js/chartjs.js: six callbacks of `$(document).ready`, each of which draws one chart.
pub mod Lines
pub mod Bars
pub mod Segments
pub mod Draw
use toyhoodle.Prelude.{String, List, [], ◌∷◌}
use toyhoodle.Dashboard.Value.{Value}
use toyhoodle.Dashboard.Page.{
  Browser, Script, ChartKind, Call, chart, ◌>>◌, perform, set_responsive, get_context,
}
use Lines.{line_options, line_points, jumbotron_options, jumbotron_points}
use Bars.{bar_options, bar_points, radar_options, radar_points}
use Segments.{polar_area_options, polar_area_segments, pie_options, pie_segments}

-- The statements that the six callbacks have in common.
unfoldable pub draw : Browser → ChartKind → String → Value → Value → Script
draw b kind id points options =
    set_responsive b >> get_context b id >> perform b (chart kind id points options)

unfoldable pub draw_line : Browser → Script
unfolding draw
draw_line b = draw b ChartKind.line "line-chart" line_points line_options

unfoldable pub draw_bar : Browser → Script
unfolding draw
draw_bar b = draw b ChartKind.bar "bar-chart" bar_points bar_options

unfoldable pub draw_radar : Browser → Script
unfolding draw
draw_radar b = draw b ChartKind.radar "radar-chart" radar_points radar_options

unfoldable pub draw_polar_area : Browser → Script
unfolding draw
draw_polar_area b =
    draw b ChartKind.polar_area "polar-area-chart" polar_area_segments polar_area_options

unfoldable pub draw_pie : Browser → Script
unfolding draw
draw_pie b = draw b ChartKind.pie "pie-chart" pie_segments pie_options

unfoldable pub draw_jumbotron : Browser → Script
unfolding draw
draw_jumbotron b = draw b ChartKind.line "jumbotron-line-chart" jumbotron_points jumbotron_options

-- The callbacks in the order in which they are registered.
unfoldable pub callbacks : Browser → List Script
unfolding draw_line draw_bar draw_radar draw_polar_area draw_pie draw_jumbotron
callbacks b =
    draw_line b ∷ draw_bar b ∷ draw_radar b ∷ draw_polar_area b ∷ draw_pie b ∷ draw_jumbotron b ∷ []
