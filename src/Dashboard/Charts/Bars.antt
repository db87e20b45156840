-- ===== src/Dashboard/Charts/Bars.antt =====
-- The options and points of the bar and radar charts of assets/js/chartjs.js.
use toyhoodle.Prelude.{true, false, [], ◌∷◌}
use toyhoodle.Dashboard.Value.{Value, bool, num, str, array, object, strs, nums}

-- The chart on `#bar-chart`.
unfoldable pub bar_options : Value
bar_options = object (
    ("scaleBeginAtZero", bool true)
    ∷ ("scaleShowGridLines", bool true)
    ∷ ("scaleGridLineColor", str "rgba(0,0,0,.05)")
    ∷ ("scaleGridLineWidth", num 1)
    ∷ ("scaleShowHorizontalLines", bool true)
    ∷ ("scaleShowVerticalLines", bool false)
    ∷ ("barShowStroke", bool true)
    ∷ ("barStrokeWidth", num 1)
    ∷ ("barValueSpacing", num 5)
    ∷ ("barDatasetSpacing", num 3)
    ∷ (
      "legendTemplate",
      str
          "<ul class=\"<%=name.toLowerCase()%>-legend\"><% for (var i=0; i<datasets.length; i++){%><li><span style=\"background-color:<%=datasets[i].fillColor%>\"></span><%if(datasets[i].label){%><%=datasets[i].label%><%}%></li><%}%></ul>",
    )
    ∷ [])

-- Its points.
unfoldable pub bar_points : Value
bar_points = object (
    ("labels", strs ("Jan" ∷ "Feb" ∷ "Mar" ∷ "Apr" ∷ "May" ∷ "Jun" ∷ "Jul" ∷ []))
    ∷ (
      "datasets",
      array (
          (object (
            ("label", str "My First dataset")
            ∷ ("fillColor", str "rgba(26, 188, 156,0.6)")
            ∷ ("strokeColor", str "#1ABC9C")
            ∷ ("pointColor", str "#1ABC9C")
            ∷ ("pointStrokeColor", str "#fff")
            ∷ ("pointHighlightFill", str "#fff")
            ∷ ("pointHighlightStroke", str "#1ABC9C")
            ∷ ("data", nums (65 ∷ 59 ∷ 80 ∷ 81 ∷ 56 ∷ 55 ∷ 40 ∷ []))
            ∷ []))
          ∷ (object (
              ("label", str "My Second dataset")
              ∷ ("fillColor", str "rgba(34, 167, 240,0.6)")
              ∷ ("strokeColor", str "#22A7F0")
              ∷ ("pointColor", str "#22A7F0")
              ∷ ("pointStrokeColor", str "#fff")
              ∷ ("pointHighlightFill", str "#fff")
              ∷ ("pointHighlightStroke", str "#22A7F0")
              ∷ ("data", nums (28 ∷ 48 ∷ 40 ∷ 19 ∷ 86 ∷ 27 ∷ 90 ∷ []))
              ∷ []))
          ∷ []),
    )
    ∷ [])

-- The chart on `#radar-chart`.
unfoldable pub radar_options : Value
radar_options = object (
    ("scaleBeginAtZero", bool true)
    ∷ ("scaleShowGridLines", bool true)
    ∷ ("scaleGridLineColor", str "rgba(0,0,0,.05)")
    ∷ ("scaleGridLineWidth", num 1)
    ∷ ("scaleShowHorizontalLines", bool true)
    ∷ ("scaleShowVerticalLines", bool false)
    ∷ ("barShowStroke", bool false)
    ∷ ("barStrokeWidth", num 0)
    ∷ ("barValueSpacing", num 5)
    ∷ ("barDatasetSpacing", num 1)
    ∷ (
      "legendTemplate",
      str
          "<ul class=\"<%=name.toLowerCase()%>-legend\"><% for (var i=0; i<datasets.length; i++){%><li><span style=\"background-color:<%=datasets[i].fillColor%>\"></span><%if(datasets[i].label){%><%=datasets[i].label%><%}%></li><%}%></ul>",
    )
    ∷ [])

-- Its points.
unfoldable pub radar_points : Value
radar_points = object (
    ("labels", strs ("Jan" ∷ "Feb" ∷ "Mar" ∷ "Apr" ∷ "May" ∷ "Jun" ∷ "Jul" ∷ []))
    ∷ (
      "datasets",
      array (
          (object (
            ("label", str "My First dataset")
            ∷ ("fillColor", str "rgba(26, 188, 156,0.2)")
            ∷ ("strokeColor", str "#1ABC9C")
            ∷ ("pointColor", str "#1ABC9C")
            ∷ ("pointStrokeColor", str "#fff")
            ∷ ("pointHighlightFill", str "#fff")
            ∷ ("pointHighlightStroke", str "#1ABC9C")
            ∷ ("data", nums (65 ∷ 59 ∷ 80 ∷ 81 ∷ 56 ∷ 55 ∷ 40 ∷ []))
            ∷ []))
          ∷ (object (
              ("label", str "My Second dataset")
              ∷ ("fillColor", str "rgba(34, 167, 240,0.2)")
              ∷ ("strokeColor", str "#22A7F0")
              ∷ ("pointColor", str "#22A7F0")
              ∷ ("pointStrokeColor", str "#fff")
              ∷ ("pointHighlightFill", str "#fff")
              ∷ ("pointHighlightStroke", str "#22A7F0")
              ∷ ("data", nums (28 ∷ 48 ∷ 40 ∷ 19 ∷ 86 ∷ 27 ∷ 90 ∷ []))
              ∷ []))
          ∷ []),
    )
    ∷ [])
