-- ===== src/Dashboard/Theme.antt =====
-- assets/js/custom-scripts.js: the theme's start-up code, which every page loads.
pub mod Options
pub mod Startup
pub mod Sidebar
use toyhoodle.Prelude.{ℕ, String, Bool, true, false, [], ◌∷◌, ltb, if◌then◌else◌}
use toyhoodle.Dashboard.Value.{Value, object, str}
use toyhoodle.Dashboard.Page.{
  Page, Browser, Script, Morris, Call, metis_menu, morris, css_charts, trigger, ◌>>◌, modify,
  perform,
}
use Options.{themed_bar, themed_donut, themed_area, themed_line}

-- The handler of `load resize`: below 768 pixels the side bar is collapsed.
unfoldable pub on_resize : ℕ → Page → Page
on_resize width p =
    if ltb width 768 then record p { collapsed = true } else record p { collapsed = false }

unfoldable pub bind_resize : Script
bind_resize = modify (λ p. record p { resize_bound = true })

abbrev css_type : String → Value
css_type t = object (("type", str t) ∷ [])

-- `mainApp.initFunction`
unfoldable pub init_function : Browser → Script
unfolding bind_resize perform
init_function b =
    perform b (metis_menu "#main-menu")
    >> bind_resize
    >> perform b (morris Morris.bar themed_bar)
    >> perform b (morris Morris.donut themed_donut)
    >> perform b (morris Morris.area themed_area)
    >> perform b (morris Morris.line themed_line)
    >> perform b (css_charts ".bar-chart" (css_type "bar"))
    >> perform b (css_charts ".donut-chart" (css_type "donut"))
    >> perform b (trigger ".donut-chart" "show-donut-chart")
    >> perform b (css_charts ".line-chart" (css_type "line"))
    >> perform b (css_charts ".pie-thychart" (css_type "pie"))

-- The handler of a click on `#sideNav`.
unfoldable pub on_click : Page → Page
on_click p =
    if p.closed
    then record p { navbar_left = "0px"; closed = false; wrapper_margin = "260px" }
    else record p { closed = true; navbar_left = "-260px"; wrapper_margin = "0px" }

unfoldable pub bind_click : Script
bind_click = modify (λ p. record p { click_bound = true })

-- The callback of `$(document).ready`.
unfoldable pub ready : Browser → Script
unfolding bind_click
ready b = init_function b >> bind_click
