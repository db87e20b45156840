-- ===== src/Example/Theme.antt =====
-- example/assets/js/custom-scripts.js: the start-up code of the pages, and its two handlers.
pub mod Options
pub mod Events
use toyhoodle.Prelude.{
  ℕ, String, Bool, true, false, ◌&&◌, List, [], ◌∷◌, ltb, str_eq, if◌then◌else◌,
}
use toyhoodle.Dashboard.Value.{Value, object, str}
use toyhoodle.Dashboard.Page.{Browser, Morris, metis_menu, morris, css_charts, trigger}
use toyhoodle.Example.Document.{
  Handler, fold_side_bar, toggle_side_nav, Binding, Document, Action, ◌>>◌, update, each, add_class,
  drop_class, remove_class, animate, bind, invoke,
}
use toyhoodle.Example.Document.Queries.{contains, has_class}
use Options.{styled_bar, styled_donut, styled_area, styled_line}

-- The handler of `load resize`, where the window has this width.
unfoldable pub handle_resize : ℕ → Document → Document
handle_resize width d =
    if ltb width 768
    then each "div.sidebar-collapse" (add_class "collapse") d
    else each "div.sidebar-collapse" (remove_class "collapse") d

-- The handler of a click on `#sideNav`, which is the `this` of the source: an id has one element.
unfoldable pub handle_click : Document → Document
handle_click d =
    if has_class "#sideNav" "closed" d.elements
    then each "#page-wrapper" (animate "margin-left" "260px")
        (each "#sideNav" (remove_class "closed") (each ".navbar-side" (animate "left" "0px") d))
    else each "#page-wrapper" (animate "margin-left" "0px")
        (each ".navbar-side" (animate "left" "-260px") (each "#sideNav" (add_class "closed") d))

unfoldable pub run_handler : ℕ → Handler → Document → Document
run_handler width fold_side_bar d = handle_resize width d
run_handler width toggle_side_nav d = handle_click d

-- The handlers bound to an event of a target run in the order in which they were bound.
unfoldable pub fire : ℕ → String → String → List Binding → Document → Document
fire width target event [] d = d
fire width target event (b ∷ bs) d =
    fire width target event bs (
      if str_eq b.target target && contains b.events event
      then run_handler width b.handler d
      else d)

abbrev type_option : String → Value
type_option t = object (("type", str t) ∷ [])

abbrev pub resize_binding : Binding
resize_binding = record {
  target = "window";
  events = "load" ∷ "resize" ∷ [];
  handler = fold_side_bar;
}

abbrev pub click_binding : Binding
click_binding = record { target = "#sideNav"; events = "click" ∷ []; handler = toggle_side_nav }

-- `mainApp.initFunction`
unfoldable pub styled_init_function : Browser → Action
unfolding invoke
styled_init_function b =
    invoke b (metis_menu "#main-menu")
    >> bind resize_binding
    >> invoke b (morris Morris.bar styled_bar)
    >> invoke b (morris Morris.donut styled_donut)
    >> invoke b (morris Morris.area styled_area)
    >> invoke b (morris Morris.line styled_line)
    >> invoke b (css_charts ".bar-chart" (type_option "bar"))
    >> invoke b (css_charts ".donut-chart" (type_option "donut"))
    >> invoke b (trigger ".donut-chart" "show-donut-chart")
    >> invoke b (css_charts ".line-chart" (type_option "line"))
    >> invoke b (css_charts ".pie-thychart" (type_option "pie"))

-- The callback of `$(document).ready`.
unfoldable pub styled_ready : Browser → Action
styled_ready b = styled_init_function b >> bind click_binding
