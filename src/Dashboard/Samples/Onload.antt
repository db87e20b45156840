-- ===== src/Dashboard/Samples/Onload.antt =====
-- What the handler of `load` of chart-data.js draws, by what it finds on the page.
use mathlib.Core.List.{append-nil, append_assoc}
use toyhoodle.Prelude.{◌≡◌, refl, String, Bool, ◌&&◌, List, [], ◌∷◌, arith, if◌then◌else◌}
use toyhoodle.Dashboard.Value.{all}
use toyhoodle.Dashboard.Page.{
  Page, Browser, Script, done, ChartKind, Call, chart, ◌>>◌, perform, get_context,
}
use toyhoodle.Dashboard.Page.Sequences.{outcome, add_calls}
use toyhoodle.Dashboard.Samples.{responsive_options, draw_on, onload}
use toyhoodle.Dashboard.Samples.Points.{
  Source, line_chart_data, bar_chart_data, pie_data, doughnut_data,
}

-- The canvas that a chart is drawn on.
abbrev pub canvas_of : Call → String
canvas_of (chart kind id points options) = id
canvas_of _ = ""

-- The canvas is there, and the call returns.
abbrev pub works : Browser → Call → Bool
works b c = b.canvas (canvas_of c) && b.returns c

-- The charts of a row up to the first whose canvas is missing, or whose call throws, itself included
-- in this case only.
unfoldable pub drawn : Browser → List Call → List Call
drawn b [] = []
drawn b (c ∷ cs) =
    if b.canvas (canvas_of c) then c ∷ (if b.returns c then drawn b cs else []) else []

abbrev draw_all : Browser → List Call → Script
draw_all b [] p = (done, p)
draw_all b (c ∷ cs) p = (get_context b (canvas_of c) >> perform b c >> draw_all b cs) p

draw_all_lem :
    (b : Browser) (cs : List Call) (p : Page)
    → draw_all b cs p ≡ (outcome (all (works b) cs), add_calls p (drawn b cs))
unfolding get_context perform drawn
draw_all_lem b [] p = rw (append-nil p.calls) refl
draw_all_lem b (c ∷ cs) p = ground (
  arith,
  draw_all_lem b cs (add_calls p (c ∷ [])),
  append_assoc p.calls (c ∷ []) (drawn b cs),
  append-nil p.calls,
)

-- The charts of the page, in order.
abbrev pub sample_charts : Source → List Call
sample_charts s =
    chart ChartKind.line "line-chart" (line_chart_data s) responsive_options
    ∷ chart ChartKind.bar "bar-chart" (bar_chart_data s) responsive_options
    ∷ chart ChartKind.doughnut "doughnut-chart" doughnut_data responsive_options
    ∷ chart ChartKind.pie "pie-chart" pie_data responsive_options
    ∷ []

onload-draw_all :
    (b : Browser) (s : Source) (p : Page) → onload b s p ≡ draw_all b (sample_charts s) p
unfolding onload draw_on
onload-draw_all b s p = ground arith

-- The handler draws the line, bar, doughnut and pie chart in this order, up to the first whose canvas
-- is missing or whose call throws, changes nothing else of the page, and ends without an exception
-- exactly if all four are drawn.
pub onload_lem :
    (b : Browser) (s : Source) (p : Page)
    → onload b s p
      ≡ (outcome (all (works b) (sample_charts s)), add_calls p (drawn b (sample_charts s)))
onload_lem b s p = rw (onload-draw_all b s p) (draw_all_lem b (sample_charts s) p)
