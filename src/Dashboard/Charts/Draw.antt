-- ===== src/Dashboard/Charts/Draw.antt =====
-- What a callback of chartjs.js does, by what it finds on the page.
use mathlib.Core.List.{append-nil}
use toyhoodle.Prelude.{String, ◌≡◌, ◌&&◌, ◌||◌, [], ◌∷◌, ◌++◌, arith, if◌then◌else◌}
use toyhoodle.Dashboard.Value.{Value}
use toyhoodle.Dashboard.Page.{Page, Browser, ChartKind, chart, set_responsive, get_context, perform}
use toyhoodle.Dashboard.Page.Sequences.{outcome}
use toyhoodle.Dashboard.Charts.{draw}

-- A callback makes its chart exactly if Chart.js is there and the page has the canvas, and ends
-- without an exception exactly if that call returns too; with Chart.js there it makes all later
-- charts responsive, also when the canvas is missing; nothing else of the page changes.
pub draw_lem :
    (b : Browser) (kind : ChartKind) (id : String) (points options : Value) (p : Page)
    → let c = chart kind id points options in
      draw b kind id points options p ≡ (
        outcome (b.defines_chart && b.canvas id && b.returns c),
        record p {
          responsive = p.responsive || b.defines_chart;
          calls = p.calls ++ (if b.defines_chart && b.canvas id then c ∷ [] else []);
        },
      )
unfolding draw set_responsive get_context perform
draw_lem b kind id points options p = ground (arith, append-nil p.calls)
