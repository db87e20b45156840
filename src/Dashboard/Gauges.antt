-- ===== src/Dashboard/Gauges.antt =====
-- assets/js/easypiechart-data.js: four callbacks of `$(document).ready`, one for each gauge.
use toyhoodle.Prelude.{String, false, [], ◌∷◌, List}
use toyhoodle.Dashboard.Value.{Value, bool, str, object}
use toyhoodle.Dashboard.Page.{Browser, Script, easy_pie_chart, perform}

abbrev bar_color : String → Value
bar_color c = object (("scaleColor", bool false) ∷ ("barColor", str c) ∷ [])

unfoldable pub gauges : Browser → List Script
gauges b =
    perform b (easy_pie_chart "#easypiechart-teal" (bar_color "#1ebfae"))
    ∷ perform b (easy_pie_chart "#easypiechart-orange" (bar_color "#ffb53e"))
    ∷ perform b (easy_pie_chart "#easypiechart-red" (bar_color "#f9243f"))
    ∷ perform b (easy_pie_chart "#easypiechart-blue" (bar_color "#30a5ff"))
    ∷ []
