-- ===== src/Example/Gauges.antt =====
-- example/assets/js/easypiechart-data.js: four callbacks of `$(document).ready`.
use toyhoodle.Prelude.{String, false, List, [], ◌∷◌}
use toyhoodle.Dashboard.Value.{bool, str, object}
use toyhoodle.Dashboard.Page.{Browser, easy_pie_chart}
use toyhoodle.Example.Document.{Action, invoke}

-- A callback, by the id of its element and the colour of its bar.
unfoldable pub gauge : Browser → String → String → Action
unfolding invoke
gauge b id color =
    invoke b
      (easy_pie_chart id (object (("scaleColor", bool false) ∷ ("barColor", str color) ∷ [])))

unfoldable pub gauge_callbacks : Browser → List Action
unfolding gauge
gauge_callbacks b =
    gauge b "#easypiechart-teal" "#1ebfae"
    ∷ gauge b "#easypiechart-orange" "#ffb53e"
    ∷ gauge b "#easypiechart-red" "#f9243f"
    ∷ gauge b "#easypiechart-blue" "#30a5ff"
    ∷ []
