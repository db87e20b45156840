-- ===== src/Dashboard/Charts/Segments.antt =====
-- The options and segments of the polar area and pie charts of assets/js/chartjs.js.
use toyhoodle.Prelude.{true, false, [], ◌∷◌}
use toyhoodle.Dashboard.Value.{Value, bool, num, decimal, str, array, object}

-- The chart on `#polar-area-chart`.
unfoldable pub polar_area_options : Value
polar_area_options = object (
    ("scaleShowLabelBackdrop", bool true)
    ∷ ("scaleBackdropColor", str "rgba(255,255,255,0.75)")
    ∷ ("scaleBeginAtZero", bool true)
    ∷ ("scaleBackdropPaddingY", num 2)
    ∷ ("scaleBackdropPaddingX", num 2)
    ∷ ("scaleShowLine", bool true)
    ∷ ("segmentShowStroke", bool true)
    ∷ ("segmentStrokeColor", str "#fff")
    ∷ ("segmentStrokeWidth", num 2)
    ∷ ("animationSteps", num 100)
    ∷ ("animationEasing", str "easeOutBounce")
    ∷ ("animateRotate", bool true)
    ∷ ("animateScale", bool false)
    ∷ (
      "legendTemplate",
      str
          "<ul class=\"<%=name.toLowerCase()%>-legend\"><% for (var i=0; i<segments.length; i++){%><li><span style=\"background-color:<%=segments[i].fillColor%>\"></span><%if(segments[i].label){%><%=segments[i].label%><%}%></li><%}%></ul>",
    )
    ∷ [])

-- Its segments.
unfoldable pub polar_area_segments : Value
polar_area_segments = array (
    (object (
      ("value", num 300)
      ∷ ("color", str "#FA2A00")
      ∷ ("highlight", str "#FA2A00")
      ∷ ("label", str "Red")
      ∷ []))
    ∷ (object (
        ("value", num 50)
        ∷ ("color", str "#1ABC9C")
        ∷ ("highlight", str "#1ABC9C")
        ∷ ("label", str "Green")
        ∷ []))
    ∷ (object (
        ("value", num 100)
        ∷ ("color", str "#FABE28")
        ∷ ("highlight", str "#FABE28")
        ∷ ("label", str "Yellow")
        ∷ []))
    ∷ (object (
        ("value", num 40)
        ∷ ("color", str "#999")
        ∷ ("highlight", str "#999")
        ∷ ("label", str "Grey")
        ∷ []))
    ∷ (object (
        ("value", num 120)
        ∷ ("color", str "#22A7F0")
        ∷ ("highlight", str "#22A7F0")
        ∷ ("label", str "Blue")
        ∷ []))
    ∷ [])

-- The chart on `#pie-chart`.
unfoldable pub pie_options : Value
pie_options = object (
    ("showScale", bool false)
    ∷ ("scaleShowGridLines", bool false)
    ∷ ("scaleGridLineColor", str "rgba(0,0,0,.05)")
    ∷ ("scaleGridLineWidth", num 0)
    ∷ ("scaleShowHorizontalLines", bool false)
    ∷ ("scaleShowVerticalLines", bool false)
    ∷ ("bezierCurve", bool false)
    ∷ ("bezierCurveTension", decimal 0 4)
    ∷ ("pointDot", bool false)
    ∷ ("pointDotRadius", num 0)
    ∷ ("pointDotStrokeWidth", num 2)
    ∷ ("pointHitDetectionRadius", num 20)
    ∷ ("datasetStroke", bool true)
    ∷ ("datasetStrokeWidth", num 4)
    ∷ ("datasetFill", bool true)
    ∷ (
      "legendTemplate",
      str
          "<ul class=\"<%=name.toLowerCase()%>-legend\"><% for (var i=0; i<datasets.length; i++){%><li><span style=\"background-color:<%=datasets[i].strokeColor%>\"></span><%if(datasets[i].label){%><%=datasets[i].label%><%}%></li><%}%></ul>",
    )
    ∷ [])

-- Its segments.
unfoldable pub pie_segments : Value
pie_segments = array (
    (object (
      ("value", num 300)
      ∷ ("color", str "#FA2A00")
      ∷ ("highlight", str "#FA2A00")
      ∷ ("label", str "Red")
      ∷ []))
    ∷ (object (
        ("value", num 50)
        ∷ ("color", str "#1ABC9C")
        ∷ ("highlight", str "#1ABC9C")
        ∷ ("label", str "Green")
        ∷ []))
    ∷ (object (
        ("value", num 100)
        ∷ ("color", str "#FABE28")
        ∷ ("highlight", str "#FABE28")
        ∷ ("label", str "Yellow")
        ∷ []))
    ∷ [])
