-- ===== src/Dashboard/Scripts.antt =====
-- All page scripts together: what they have in common whatever the browser answers.
use mathlib.Core.Path.{subst}
use toyhoodle.Prelude.{
  ℕ, zero, suc, get_elem?, some, String, ◌≡◌, refl, true, List, [], ◌∷◌, ◌++◌, arith, All,
  All-append,
}
use toyhoodle.Dashboard.Value.{Value, all}
use toyhoodle.Dashboard.Page.{
  Page, Browser, Script, ChartKind, Call, chart, metis_menu, ◌>>◌, perform, set_responsive,
  get_context,
}
use toyhoodle.Dashboard.Page.Complete.{is_complete, IsComplete, all-append, all-attempted}
use toyhoodle.Dashboard.Page.Sequences.{attempted, perform_all, perform_all_lem}
use toyhoodle.Dashboard.Theme.Startup.{chart_calls, init_function-perform_all}
use toyhoodle.Dashboard.Plain.Startup.{plain_calls, plain_init_function-perform_all}
use toyhoodle.Dashboard.Theme.{init_function, bind_click, ready, bind_resize}
use toyhoodle.Dashboard.Theme.Options.{themed_bar, themed_donut, themed_area, themed_line}
use toyhoodle.Dashboard.Plain.{plain_init_function}
use toyhoodle.Dashboard.Plain.Options.{plain_bar, plain_donut, plain_area, plain_line}
use toyhoodle.Dashboard.Charts.{draw, callbacks}
use toyhoodle.Dashboard.Charts.Lines.{line_points, jumbotron_points}
use toyhoodle.Dashboard.Charts.Bars.{bar_points, radar_points}
use toyhoodle.Dashboard.Charts.Segments.{polar_area_segments, pie_segments}
use toyhoodle.Dashboard.Samples.{draw_on, onload, responsive_options}
use toyhoodle.Dashboard.Samples.Points.{
  Source, line_chart_data, bar_chart_data, pie_data, doughnut_data,
}
use toyhoodle.Dashboard.Gauges.{gauges}

-- A script adds no incomplete chart to those on record.
pub record Keeps (s : Script) : Type 0 where
  pub keeps : (p : Page) → IsComplete p → IsComplete (s p).1

module _ (b : Browser) where
  perform-Keeps : (c : Call) → is_complete c ≡ true → Keeps (perform b c)
  unfolding perform
  perform-Keeps c h = record {
    keeps = λ p v. all-append is_complete p.calls (c ∷ []) v (ground arith);
  }

  set_responsive-Keeps : Keeps (set_responsive b)
  unfolding set_responsive
  set_responsive-Keeps = record { keeps = λ p v. ground arith }

  get_context-Keeps : (id : String) → Keeps (get_context b id)
  unfolding get_context
  get_context-Keeps id = record { keeps = λ p v. v }

then-Keeps : (m k : Script) → Keeps m → Keeps k → Keeps (m >> k)
then-Keeps m k hm hk = record { keeps = λ p v. ground (arith, hm.keeps p, hk.keeps (m p).1) }

bind_resize-Keeps : Keeps bind_resize
unfolding bind_resize
bind_resize-Keeps = record { keeps = λ p v. v }

bind_click-Keeps : Keeps bind_click
unfolding bind_click
bind_click-Keeps = record { keeps = λ p v. v }

draw-Keeps :
    (b : Browser) (kind : ChartKind) (id : String) (points options : Value)
    → is_complete (chart kind id points options) ≡ true
    → Keeps (draw b kind id points options)
unfolding draw
draw-Keeps b kind id points options h =
    then-Keeps _ _ (then-Keeps _ _ (set_responsive-Keeps b) (get_context-Keeps b id))
      (perform-Keeps b _ h)

perform_all-Keeps :
    (b : Browser) (cs : List Call) → all is_complete cs ≡ true → Keeps (perform_all b cs)
perform_all-Keeps b cs h = record {
  keeps = λ p v. rw (perform_all_lem b cs p) (
      all-append is_complete p.calls (attempted b.returns cs) v
        (all-attempted is_complete b.returns cs h));
}

-- What the two start-up scripts do, up to their last own statement.
startup-Keeps :
    (b : Browser) (cs : List Call)
    → all is_complete cs ≡ true
    → Keeps (perform b (metis_menu "#main-menu") >> bind_resize >> perform_all b cs)
startup-Keeps b cs h =
    then-Keeps _ _ (then-Keeps _ _ (perform-Keeps b _ refl) bind_resize-Keeps)
      (perform_all-Keeps b cs h)

chart_calls_complete : all is_complete chart_calls ≡ true
unfolding themed_bar themed_donut themed_area themed_line
chart_calls_complete = refl

plain_calls_complete : all is_complete plain_calls ≡ true
unfolding plain_bar plain_donut plain_area plain_line
plain_calls_complete = refl

init_function-Keeps : (b : Browser) → Keeps (init_function b)
init_function-Keeps b = record {
  keeps = λ p v.
      rw (init_function-perform_all b p)
        ((startup-Keeps b chart_calls chart_calls_complete).keeps p v);
}

ready-Keeps : (b : Browser) → Keeps (ready b)
unfolding ready
ready-Keeps b = then-Keeps _ _ (init_function-Keeps b) bind_click-Keeps

plain_init_function-Keeps : (b : Browser) → Keeps (plain_init_function b)
plain_init_function-Keeps b = record {
  keeps = λ p v.
      rw (plain_init_function-perform_all b p)
        ((startup-Keeps b plain_calls plain_calls_complete).keeps p v);
}

onload-Keeps : (b : Browser) (s : Source) → Keeps (onload b s)
unfolding onload line_chart_data bar_chart_data pie_data doughnut_data
onload-Keeps b s =
    then-Keeps _ _ (then-Keeps _ _ (then-Keeps _ _ (on _ _ _ refl) (on _ _ _ refl)) (on _ _ _ refl))
      (on _ _ _ refl)
  where
    on :
        (kind : ChartKind) (id : String) (points : Value)
        → is_complete (chart kind id points responsive_options) ≡ true
        → Keeps (draw_on b kind id points)
    on kind id points h = then-Keeps _ _ (get_context-Keeps b id) (perform-Keeps b _ h)

-- The scripts of the pages, in no particular order.
abbrev pub scripts : Browser → Source → List Script
scripts b s = ready b ∷ plain_init_function b ∷ onload b s ∷ (callbacks b ++ gauges b)

callbacks-Keeps : (b : Browser) → All Keeps (callbacks b)
unfolding callbacks line_points jumbotron_points bar_points radar_points polar_area_segments
    pie_segments
callbacks-Keeps b = (
  draw-Keeps b _ _ _ _ refl,
  (
    draw-Keeps b _ _ _ _ refl,
    (
      draw-Keeps b _ _ _ _ refl,
      (draw-Keeps b _ _ _ _ refl, (draw-Keeps b _ _ _ _ refl, (draw-Keeps b _ _ _ _ refl, tt))),
    ),
  ),
)

gauges-Keeps : (b : Browser) → All Keeps (gauges b)
unfolding gauges
gauges-Keeps b = (
  perform-Keeps b _ refl,
  (perform-Keeps b _ refl, (perform-Keeps b _ refl, (perform-Keeps b _ refl, tt))),
)

scripts-Keeps : (b : Browser) (s : Source) → All Keeps (scripts b s)
scripts-Keeps b s = (
  ready-Keeps b,
  (
    plain_init_function-Keeps b,
    (
      onload-Keeps b s,
      All-append Keeps (callbacks b) (gauges b) (callbacks-Keeps b) (gauges-Keeps b),
    ),
  ),
)

All-get_elem? {ℓ κ} :
    {A : Type ℓ} (P : A → Type κ) (xs : List A) (i : ℕ) {x : A}
    → All P xs
    → get_elem? xs i ≡ some x
    → P x
All-get_elem? P [] i h e = cc
All-get_elem? P (x ∷ xs) zero {x = y} h e = let q : x ≡ y = cc in subst P q h.0
All-get_elem? P (x ∷ xs) (suc i) h e = All-get_elem? P xs i h.1 e

-- Whatever the browser answers and whatever the random numbers are, if all charts on record were handed
-- complete data before one of the page scripts then so they are after it: each row of a Morris chart has a value under the key of the x axis
-- and of every series, with one label for each series; each dataset of a Chart.js chart has one
-- point for each label; each segment of a pie, doughnut or polar area chart has its four fields.
pub scripts-IsComplete :
    (b : Browser) (s : Source) (i : ℕ) (script : Script) (p : Page)
    → get_elem? (scripts b s) i ≡ some script
    → IsComplete p
    → IsComplete (script p).1
scripts-IsComplete b s i script p e v =
    (All-get_elem? Keeps (scripts b s) i (scripts-Keeps b s) e).keeps p v
