-- ===== src/Example/Charts/Shapes.antt =====
-- The shapes that the data of example/assets/js/chartjs.js shares, and its legends.
use toyhoodle.Prelude.{ℕ, String, List, [], ◌∷◌}
use toyhoodle.Dashboard.Value.{Value, num, str, array, object, strs, nums}

-- A dataset: the points and their strokes have one colour, and white when highlighted.
abbrev pub dataset : String → String → String → List ℕ → Value
dataset label fill color points = object (
    ("label", str label)
    ∷ ("fillColor", str fill)
    ∷ ("strokeColor", str color)
    ∷ ("pointColor", str color)
    ∷ ("pointStrokeColor", str "#fff")
    ∷ ("pointHighlightFill", str "#fff")
    ∷ ("pointHighlightStroke", str color)
    ∷ ("data", nums points)
    ∷ [])

-- The data of seven months.
abbrev pub months_grid : List Value → Value
months_grid datasets = object (
    ("labels", strs ("Jan" ∷ "Feb" ∷ "Mar" ∷ "Apr" ∷ "May" ∷ "Jun" ∷ "Jul" ∷ []))
    ∷ ("datasets", array datasets)
    ∷ [])

-- A segment: it is highlighted in its own colour.
abbrev pub segment : ℕ → String → String → Value
segment value color label = object (
    ("value", num value)
    ∷ ("color", str color)
    ∷ ("highlight", str color)
    ∷ ("label", str label)
    ∷ [])

abbrev pub stroke_legend : String
stroke_legend =
    "<ul class=\"<%=name.toLowerCase()%>-legend\"><% for (var i=0; i<datasets.length; i++){%><li><span style=\"background-color:<%=datasets[i].strokeColor%>\"></span><%if(datasets[i].label){%><%=datasets[i].label%><%}%></li><%}%></ul>"

abbrev pub fill_legend : String
fill_legend =
    "<ul class=\"<%=name.toLowerCase()%>-legend\"><% for (var i=0; i<datasets.length; i++){%><li><span style=\"background-color:<%=datasets[i].fillColor%>\"></span><%if(datasets[i].label){%><%=datasets[i].label%><%}%></li><%}%></ul>"

abbrev pub segment_legend : String
segment_legend =
    "<ul class=\"<%=name.toLowerCase()%>-legend\"><% for (var i=0; i<segments.length; i++){%><li><span style=\"background-color:<%=segments[i].fillColor%>\"></span><%if(segments[i].label){%><%=segments[i].label%><%}%></li><%}%></ul>"
