-- ===== src/Dashboard/Theme/Startup.antt =====
-- The start-up of a page by custom-scripts.js: which library calls it makes, and what is bound then.
use mathlib.Core.List.{append_assoc}
use toyhoodle.Prelude.{◌≡◌, true, ◌||◌, List, [], ◌∷◌, ◌++◌, arith}
use toyhoodle.Dashboard.Value.{all}
use toyhoodle.Dashboard.Page.{
  Page, Browser, Morris, Call, metis_menu, morris, css_charts, trigger, ◌>>◌, perform,
}
use toyhoodle.Dashboard.Page.Sequences.{attempted, outcome, perform_all, perform_all_lem}
use toyhoodle.Dashboard.Theme.{css_type, bind_resize, init_function, ready}
use toyhoodle.Dashboard.Theme.Options.{themed_bar, themed_donut, themed_area, themed_line}

-- The calls behind that of `metisMenu`, in order.
abbrev pub chart_calls : List Call
chart_calls =
    morris Morris.bar themed_bar
    ∷ morris Morris.donut themed_donut
    ∷ morris Morris.area themed_area
    ∷ morris Morris.line themed_line
    ∷ css_charts ".bar-chart" (css_type "bar")
    ∷ css_charts ".donut-chart" (css_type "donut")
    ∷ trigger ".donut-chart" "show-donut-chart"
    ∷ css_charts ".line-chart" (css_type "line")
    ∷ css_charts ".pie-thychart" (css_type "pie")
    ∷ []

abbrev pub menu_call : Call
menu_call = metis_menu "#main-menu"

pub init_function-perform_all :
    (b : Browser) (p : Page)
    → init_function b p ≡ (perform b menu_call >> bind_resize >> perform_all b chart_calls) p
unfolding init_function perform_all
init_function-perform_all b p = ground arith

abbrev pub startup_calls : List Call
startup_calls = menu_call ∷ chart_calls

abbrev pub after_startup : Browser → Page → Page
after_startup b p = record p {
  calls = p.calls ++ attempted b.returns startup_calls;
  resize_bound = p.resize_bound || b.returns menu_call;
  click_bound = p.click_bound || all b.returns startup_calls;
}

-- The start-up ends without an exception exactly if each of its ten library calls returns, and makes
-- them in order up to the first that throws. The handler of `load resize` is bound afterwards if it
-- was before or `metisMenu` returns, that of `#sideNav` if it was before or all the calls return.
pub ready_lem :
    (b : Browser) (p : Page)
    → ready b p ≡ (outcome (all b.returns startup_calls), after_startup b p)
unfolding ready attempted perform bind_resize
ready_lem b p = ground (
  arith,
  init_function-perform_all b p,
  perform_all_lem b chart_calls
      (record p { resize_bound = true; calls = p.calls ++ menu_call ∷ [] }),
  append_assoc p.calls (menu_call ∷ []) (attempted b.returns chart_calls),
)
