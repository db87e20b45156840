-- ===== src/Dashboard/Charts/Lines.antt =====
-- The options and points of the two line charts of assets/js/chartjs.js.
use toyhoodle.Prelude.{true, false, [], ◌∷◌}
use toyhoodle.Dashboard.Value.{Value, bool, num, decimal, str, array, object, strs, nums}

-- The chart on `#line-chart`.
unfoldable pub line_options : Value
line_options = object (
    ("scaleShowGridLines", bool true)
    ∷ ("scaleGridLineColor", str "rgba(0,0,0,.05)")
    ∷ ("scaleGridLineWidth", num 1)
    ∷ ("scaleShowHorizontalLines", bool true)
    ∷ ("scaleShowVerticalLines", bool true)
    ∷ ("bezierCurve", bool false)
    ∷ ("bezierCurveTension", decimal 0 4)
    ∷ ("pointDot", bool true)
    ∷ ("pointDotRadius", num 4)
    ∷ ("pointDotStrokeWidth", num 1)
    ∷ ("pointHitDetectionRadius", num 20)
    ∷ ("datasetStroke", bool true)
    ∷ ("datasetStrokeWidth", num 2)
    ∷ ("datasetFill", bool true)
    ∷ (
      "legendTemplate",
      str
          "<ul class=\"<%=name.toLowerCase()%>-legend\"><% for (var i=0; i<datasets.length; i++){%><li><span style=\"background-color:<%=datasets[i].strokeColor%>\"></span><%if(datasets[i].label){%><%=datasets[i].label%><%}%></li><%}%></ul>",
    )
    ∷ [])

-- Its points.
unfoldable pub line_points : Value
line_points = object (
    ("labels", strs ("Jan" ∷ "Feb" ∷ "Mar" ∷ "Apr" ∷ "May" ∷ "Jun" ∷ "Jul" ∷ []))
    ∷ (
      "datasets",
      array (
          (object (
            ("label", str "My First dataset")
            ∷ ("fillColor", str "rgba(26, 188, 156,0.2)")
            ∷ ("strokeColor", str "#1ABC9C")
            ∷ ("pointColor", str "#1ABC9C")
            ∷ ("pointStrokeColor", str "#fff")
            ∷ ("pointHighlightFill", str "#fff")
            ∷ ("pointHighlightStroke", str "#1ABC9C")
            ∷ ("data", nums (65 ∷ 59 ∷ 80 ∷ 81 ∷ 56 ∷ 55 ∷ 40 ∷ []))
            ∷ []))
          ∷ (object (
              ("label", str "My Second dataset")
              ∷ ("fillColor", str "rgba(34, 167, 240,0.2)")
              ∷ ("strokeColor", str "#22A7F0")
              ∷ ("pointColor", str "#22A7F0")
              ∷ ("pointStrokeColor", str "#fff")
              ∷ ("pointHighlightFill", str "#fff")
              ∷ ("pointHighlightStroke", str "#22A7F0")
              ∷ ("data", nums (28 ∷ 48 ∷ 40 ∷ 19 ∷ 86 ∷ 27 ∷ 90 ∷ []))
              ∷ []))
          ∷ []),
    )
    ∷ [])

-- The chart on `#jumbotron-line-chart`.
unfoldable pub jumbotron_options : Value
jumbotron_options = object (
    ("showScale", bool false)
    ∷ ("scaleShowGridLines", bool true)
    ∷ ("scaleGridLineColor", str "rgba(0,0,0,.05)")
    ∷ ("scaleGridLineWidth", num 1)
    ∷ ("scaleShowHorizontalLines", bool true)
    ∷ ("scaleShowVerticalLines", bool true)
    ∷ ("bezierCurve", bool false)
    ∷ ("bezierCurveTension", decimal 0 4)
    ∷ ("pointDot", bool true)
    ∷ ("pointDotRadius", num 4)
    ∷ ("pointDotStrokeWidth", num 1)
    ∷ ("pointHitDetectionRadius", num 20)
    ∷ ("datasetStroke", bool true)
    ∷ ("datasetStrokeWidth", num 2)
    ∷ ("datasetFill", bool true)
    ∷ (
      "legendTemplate",
      str
          "<ul class=\"<%=name.toLowerCase()%>-legend\"><% for (var i=0; i<datasets.length; i++){%><li><span style=\"background-color:<%=datasets[i].strokeColor%>\"></span><%if(datasets[i].label){%><%=datasets[i].label%><%}%></li><%}%></ul>",
    )
    ∷ [])

-- Its points.
unfoldable pub jumbotron_points : Value
jumbotron_points = object (
    ("labels", strs ("Jan" ∷ "Feb" ∷ "Mar" ∷ "Apr" ∷ "May" ∷ "Jun" ∷ "Jul" ∷ []))
    ∷ (
      "datasets",
      array (
          (object (
            ("label", str "My Second dataset")
            ∷ ("fillColor", str "rgba(34, 167, 240,0.2)")
            ∷ ("strokeColor", str "#22A7F0")
            ∷ ("pointColor", str "#22A7F0")
            ∷ ("pointStrokeColor", str "#fff")
            ∷ ("pointHighlightFill", str "#fff")
            ∷ ("pointHighlightStroke", str "#22A7F0")
            ∷ ("data", nums (28 ∷ 48 ∷ 40 ∷ 45 ∷ 76 ∷ 65 ∷ 90 ∷ []))
            ∷ []))
          ∷ []),
    )
    ∷ [])
