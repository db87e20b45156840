-- ===== src/Dashboard/Tests.antt =====
-- Runs of the page scripts on a page where everything is there and on one without Morris, and
-- instances of the theorems.
use toyhoodle.Prelude.{
  str_eq, ℕ, ◌%◌, ◌<◌, ◌≡◌, refl, Bool, true, false, not, [], ◌∷◌, arith, length, if◌then◌else◌,
}
use toyhoodle.Dashboard.Value.{all}
use toyhoodle.Dashboard.Page.{
  Page, Browser, done, threw, Call, morris, perform, set_responsive, get_context,
}
use toyhoodle.Dashboard.Page.Sequences.{attempted, outcome}
use toyhoodle.Dashboard.Page.Complete.{IsComplete}
use toyhoodle.Dashboard.Theme.{on_resize, bind_resize, init_function, on_click, bind_click, ready}
use toyhoodle.Dashboard.Theme.Startup.{ready_lem, after_startup, startup_calls}
use toyhoodle.Dashboard.Theme.Sidebar.{
  resize, click, dispatch, run, clicks, is_odd, last_width, IsPlaced, run-closed, run-IsPlaced,
  ready-run-closed,
}
use toyhoodle.Dashboard.Plain.{plain_init_function}
use toyhoodle.Dashboard.Charts.{
  draw, draw_line, draw_bar, draw_radar, draw_polar_area, draw_pie, draw_jumbotron, callbacks,
}
use toyhoodle.Dashboard.Samples.{draw_on, onload}
use toyhoodle.Dashboard.Samples.Points.{
  Source, random_scaling_factor, line_chart_data, bar_chart_data,
}
use toyhoodle.Dashboard.Samples.Bounds.{points_at_most, chart_data-points_at_most}
use toyhoodle.Dashboard.Samples.Onload.{drawn, sample_charts, onload_lem}
use toyhoodle.Dashboard.Page.Sequences.{add_calls}
use toyhoodle.Dashboard.Gauges.{gauges}
use toyhoodle.Dashboard.Scripts.{scripts-IsComplete}

program : Unit {0}
unfolding perform set_responsive get_context on_resize bind_resize init_function on_click bind_click
    ready plain_init_function draw draw_line draw_bar draw_radar draw_polar_area draw_pie
    draw_jumbotron callbacks draw_on onload random_scaling_factor gauges attempted clicks is_odd
    last_width run dispatch
program = tt

abbrev page : Page
page = record {
  collapsed = false;
  closed = false;
  navbar_left = "0px";
  wrapper_margin = "260px";
  responsive = false;
  resize_bound = false;
  click_bound = false;
  calls = [];
}

abbrev is_morris_call : Call → Bool
is_morris_call (morris _ _) = true
is_morris_call _ = false

-- A browser in which all libraries and elements are there.
abbrev full_browser : Browser
full_browser = record { returns = λ c. true; defines_chart = true; canvas = λ id. true }

-- A browser without Morris.
abbrev no_morris : Browser
no_morris = record full_browser { returns = λ c. not (is_morris_call c) }

-- A page that has been started.
abbrev started : Page
started = record page { resize_bound = true; click_bound = true }

ready_run :
    ((ready full_browser page).0 ≡ done)
    × ((ready full_browser page).1.click_bound ≡ true)
    × (length (ready full_browser page).1.calls ≡ 10)
    × ((ready no_morris page).0 ≡ threw)
    × ((ready no_morris page).1.click_bound ≡ false)
    × ((ready no_morris page).1.resize_bound ≡ true)
    × (length (ready no_morris page).1.calls ≡ 2)
unfolding program
ready_run = (refl, refl, refl, refl, refl, refl, refl)

plain_run : length (plain_init_function full_browser page).1.calls ≡ 5
unfolding program
plain_run = refl

onload_run : (s : Source) → length (onload full_browser s page).1.calls ≡ 4
unfolding program
onload_run s = refl

abbrev halves : Source
halves = record { draw = λ n. n % 2; scale = 2 }

random_run : (random_scaling_factor halves 0 ≡ 0) × (random_scaling_factor halves 1 ≡ 500)
unfolding program
random_run = (refl, refl)

ready_lem_example :
    ready no_morris page
    ≡ (outcome (all no_morris.returns startup_calls), after_startup no_morris page)
ready_lem_example = ready_lem no_morris page

-- A browser in which the page has no canvas for the bar chart.
abbrev no_bar : Browser
no_bar = record full_browser { canvas = λ id. not (str_eq id "bar-chart") }

no_bar_run : length (onload no_bar halves page).1.calls ≡ 1
unfolding program
no_bar_run = refl

onload_lem_example :
    onload no_bar halves page ≡ (threw, add_calls page (drawn no_bar (sample_charts halves)))
onload_lem_example = onload_lem no_bar halves page

run-closed_example :
    (run (click ∷ resize 500 ∷ click ∷ click ∷ []) started).closed
    ≡ (if is_odd (clicks (click ∷ resize 500 ∷ click ∷ click ∷ [])) then true else false)
run-closed_example = run-closed (click ∷ resize 500 ∷ click ∷ click ∷ []) started refl

clicks_two : 0 < clicks (click ∷ resize 500 ∷ click ∷ [])
unfolding clicks
clicks_two = omega arith

run-IsPlaced_example : IsPlaced (run (click ∷ resize 500 ∷ click ∷ []) started)
run-IsPlaced_example = run-IsPlaced (click ∷ resize 500 ∷ click ∷ []) started refl clicks_two

ready-run-closed_example :
    (run (click ∷ click ∷ click ∷ []) (ready no_morris page).1).closed ≡ false
ready-run-closed_example = ready-run-closed no_morris (click ∷ click ∷ click ∷ []) page refl refl

halves_lt : (n : ℕ) → n % 2 < 2
halves_lt n = omega arith

chart_data-points_at_most_example :
    (points_at_most 1000 (line_chart_data halves) ≡ true)
    × (points_at_most 1000 (bar_chart_data halves) ≡ true)
chart_data-points_at_most_example = chart_data-points_at_most halves halves_lt

scripts-IsComplete_example : IsComplete (ready no_morris page).1
scripts-IsComplete_example = scripts-IsComplete no_morris halves 0 (ready no_morris) page refl refl
