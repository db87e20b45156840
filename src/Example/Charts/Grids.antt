-- ===== src/Example/Charts/Grids.antt =====
-- The options and points of the line, bar and radar charts of example/assets/js/chartjs.js.
use toyhoodle.Prelude.{true, false, [], ◌∷◌}
use toyhoodle.Dashboard.Value.{Value, bool, num, decimal, str, object}
use toyhoodle.Example.Charts.Shapes.{dataset, months_grid, stroke_legend, fill_legend}

-- The chart on `#line-chart`.
unfoldable pub line_chart_options : Value
line_chart_options = object (
    ("scaleShowGridLines", bool true)
    ∷ ("scaleGridLineColor", str "rgba(0,0,0,.05)")
    ∷ ("scaleGridLineWidth", num 1)
    ∷ ("scaleShowHorizontalLines", bool true)
    ∷ ("scaleShowVerticalLines", bool true)
    ∷ ("bezierCurve", bool false)
    ∷ ("bezierCurveTension", decimal 0 4)
    ∷ ("pointDot", bool true)
    ∷ ("pointDotRadius", num 4)
    ∷ ("pointDotStrokeWidth", num 1)
    ∷ ("pointHitDetectionRadius", num 20)
    ∷ ("datasetStroke", bool true)
    ∷ ("datasetStrokeWidth", num 2)
    ∷ ("datasetFill", bool true)
    ∷ ("legendTemplate", str stroke_legend)
    ∷ [])

-- Its points.
unfoldable pub line_chart_points : Value
line_chart_points = months_grid (
    (dataset "My First dataset" "rgba(26, 188, 156,0.2)" "#1ABC9C"
      (65 ∷ 59 ∷ 80 ∷ 81 ∷ 56 ∷ 55 ∷ 40 ∷ []))
    ∷ (dataset "My Second dataset" "rgba(34, 167, 240,0.2)" "#22A7F0"
        (28 ∷ 48 ∷ 40 ∷ 19 ∷ 86 ∷ 27 ∷ 90 ∷ []))
    ∷ [])

-- The chart on `#bar-chart`.
unfoldable pub bar_chart_options : Value
bar_chart_options = object (
    ("scaleBeginAtZero", bool true)
    ∷ ("scaleShowGridLines", bool true)
    ∷ ("scaleGridLineColor", str "rgba(0,0,0,.05)")
    ∷ ("scaleGridLineWidth", num 1)
    ∷ ("scaleShowHorizontalLines", bool true)
    ∷ ("scaleShowVerticalLines", bool false)
    ∷ ("barShowStroke", bool true)
    ∷ ("barStrokeWidth", num 1)
    ∷ ("barValueSpacing", num 5)
    ∷ ("barDatasetSpacing", num 3)
    ∷ ("legendTemplate", str fill_legend)
    ∷ [])

-- Its points.
unfoldable pub bar_chart_points : Value
bar_chart_points = months_grid (
    (dataset "My First dataset" "rgba(26, 188, 156,0.6)" "#1ABC9C"
      (65 ∷ 59 ∷ 80 ∷ 81 ∷ 56 ∷ 55 ∷ 40 ∷ []))
    ∷ (dataset "My Second dataset" "rgba(34, 167, 240,0.6)" "#22A7F0"
        (28 ∷ 48 ∷ 40 ∷ 19 ∷ 86 ∷ 27 ∷ 90 ∷ []))
    ∷ [])

-- The chart on `#radar-chart`.
unfoldable pub radar_chart_options : Value
radar_chart_options = object (
    ("scaleBeginAtZero", bool true)
    ∷ ("scaleShowGridLines", bool true)
    ∷ ("scaleGridLineColor", str "rgba(0,0,0,.05)")
    ∷ ("scaleGridLineWidth", num 1)
    ∷ ("scaleShowHorizontalLines", bool true)
    ∷ ("scaleShowVerticalLines", bool false)
    ∷ ("barShowStroke", bool false)
    ∷ ("barStrokeWidth", num 0)
    ∷ ("barValueSpacing", num 5)
    ∷ ("barDatasetSpacing", num 1)
    ∷ ("legendTemplate", str fill_legend)
    ∷ [])

-- Its points.
unfoldable pub radar_chart_points : Value
radar_chart_points = months_grid (
    (dataset "My First dataset" "rgba(26, 188, 156,0.2)" "#1ABC9C"
      (65 ∷ 59 ∷ 80 ∷ 81 ∷ 56 ∷ 55 ∷ 40 ∷ []))
    ∷ (dataset "My Second dataset" "rgba(34, 167, 240,0.2)" "#22A7F0"
        (28 ∷ 48 ∷ 40 ∷ 19 ∷ 86 ∷ 27 ∷ 90 ∷ []))
    ∷ [])

-- The chart on `#jumbotron-line-chart`.
unfoldable pub jumbotron_chart_options : Value
jumbotron_chart_options = object (
    ("showScale", bool false)
    ∷ ("scaleShowGridLines", bool true)
    ∷ ("scaleGridLineColor", str "rgba(0,0,0,.05)")
    ∷ ("scaleGridLineWidth", num 1)
    ∷ ("scaleShowHorizontalLines", bool true)
    ∷ ("scaleShowVerticalLines", bool true)
    ∷ ("bezierCurve", bool false)
    ∷ ("bezierCurveTension", decimal 0 4)
    ∷ ("pointDot", bool true)
    ∷ ("pointDotRadius", num 4)
    ∷ ("pointDotStrokeWidth", num 1)
    ∷ ("pointHitDetectionRadius", num 20)
    ∷ ("datasetStroke", bool true)
    ∷ ("datasetStrokeWidth", num 2)
    ∷ ("datasetFill", bool true)
    ∷ ("legendTemplate", str stroke_legend)
    ∷ [])

-- Its points.
unfoldable pub jumbotron_chart_points : Value
jumbotron_chart_points = months_grid (
    (dataset "My Second dataset" "rgba(34, 167, 240,0.2)" "#22A7F0"
      (28 ∷ 48 ∷ 40 ∷ 45 ∷ 76 ∷ 65 ∷ 90 ∷ []))
    ∷ [])
