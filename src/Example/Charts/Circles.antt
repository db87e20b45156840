-- ===== src/Example/Charts/Circles.antt =====
-- The options and segments of the polar area and pie charts of example/assets/js/chartjs.js.
use toyhoodle.Prelude.{true, false, [], ◌∷◌}
use toyhoodle.Dashboard.Value.{Value, bool, num, decimal, str, array, object}
use toyhoodle.Example.Charts.Shapes.{segment, stroke_legend, segment_legend}

-- The chart on `#polar-area-chart`.
unfoldable pub polar_chart_options : Value
polar_chart_options = object (
    ("scaleShowLabelBackdrop", bool true)
    ∷ ("scaleBackdropColor", str "rgba(255,255,255,0.75)")
    ∷ ("scaleBeginAtZero", bool true)
    ∷ ("scaleBackdropPaddingY", num 2)
    ∷ ("scaleBackdropPaddingX", num 2)
    ∷ ("scaleShowLine", bool true)
    ∷ ("segmentShowStroke", bool true)
    ∷ ("segmentStrokeColor", str "#fff")
    ∷ ("segmentStrokeWidth", num 2)
    ∷ ("animationSteps", num 100)
    ∷ ("animationEasing", str "easeOutBounce")
    ∷ ("animateRotate", bool true)
    ∷ ("animateScale", bool false)
    ∷ ("legendTemplate", str segment_legend)
    ∷ [])

-- Its segments.
unfoldable pub polar_chart_segments : Value
polar_chart_segments = array (
    (segment 300 "#FA2A00" "Red")
    ∷ (segment 50 "#1ABC9C" "Green")
    ∷ (segment 100 "#FABE28" "Yellow")
    ∷ (segment 40 "#999" "Grey")
    ∷ (segment 120 "#22A7F0" "Blue")
    ∷ [])

-- The chart on `#pie-chart`.
unfoldable pub pie_chart_options : Value
pie_chart_options = object (
    ("showScale", bool false)
    ∷ ("scaleShowGridLines", bool false)
    ∷ ("scaleGridLineColor", str "rgba(0,0,0,.05)")
    ∷ ("scaleGridLineWidth", num 0)
    ∷ ("scaleShowHorizontalLines", bool false)
    ∷ ("scaleShowVerticalLines", bool false)
    ∷ ("bezierCurve", bool false)
    ∷ ("bezierCurveTension", decimal 0 4)
    ∷ ("pointDot", bool false)
    ∷ ("pointDotRadius", num 0)
    ∷ ("pointDotStrokeWidth", num 2)
    ∷ ("pointHitDetectionRadius", num 20)
    ∷ ("datasetStroke", bool true)
    ∷ ("datasetStrokeWidth", num 4)
    ∷ ("datasetFill", bool true)
    ∷ ("legendTemplate", str stroke_legend)
    ∷ [])

-- Its segments.
unfoldable pub pie_chart_segments : Value
pie_chart_segments = array (
    (segment 300 "#FA2A00" "Red")
    ∷ (segment 50 "#1ABC9C" "Green")
    ∷ (segment 100 "#FABE28" "Yellow")
    ∷ [])
