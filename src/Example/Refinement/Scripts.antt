-- ===== src/Example/Refinement/Scripts.antt =====
-- Every script of the second tree does to the page that a document shows what the script of the first
-- tree does to a page.
use toyhoodle.Prelude.{
  ℕ, String, ◌≡◌, refl, ap, List, ◌∷◌, ◌++◌, some, get_elem?, arith, Pairwise, Pairwise-append,
  Pairwise-get_elem?,
}
use toyhoodle.Dashboard.Value.{Value}
use toyhoodle.Dashboard.Page.{
  Browser, Script, Morris, ChartKind, Call, morris, chart, perform, ◌>>◌ as then_script,
}
use toyhoodle.Dashboard.Theme.{bind_resize, bind_click, init_function, ready}
use toyhoodle.Dashboard.Plain.{plain_init_function}
use toyhoodle.Dashboard.Charts.{draw, callbacks}
use toyhoodle.Dashboard.Samples.{draw_on, onload}
use toyhoodle.Dashboard.Samples.Points.{Source}
use toyhoodle.Dashboard.Gauges.{gauges}
use toyhoodle.Dashboard.Scripts.{scripts}
use toyhoodle.Example.Document.{
  Document, Action, ◌>>◌, bind, invoke, new_chart, make_responsive, context_of,
}
use toyhoodle.Example.Theme.{resize_binding, click_binding, styled_init_function, styled_ready}
use toyhoodle.Example.Plain.{default_init_function}
use toyhoodle.Example.Charts.{paintings}
use toyhoodle.Example.Samples.{Globals, load_script, paint_samples, responsive}
use toyhoodle.Example.Gauges.{gauge_callbacks}
use toyhoodle.Example.Agreement.{
  styled_agrees, default_agrees, grids_agree, circles_agree, load_script_agrees,
}
use toyhoodle.Example.Refinement.View.{
  page_of, is_bound, is_bound-append, Refines, then-Refines, invoke-Refines,
  make_responsive-Refines, context_of-Refines,
}

infixl 5 ◌⨾◌
abbrev ◌⨾◌ :
    {m n : Action} {j k : Script} → Refines m j → Refines n k → Refines (m >> n) (then_script j k)
◌⨾◌ {m} {n} {j} {k} = then-Refines m n j k

resize-Refines : Refines (bind resize_binding) bind_resize
unfolding bind_resize is_bound
resize-Refines = record {
  same = λ d. ground (
    arith,
    is_bound-append "window" "resize" d.bindings resize_binding,
    is_bound-append "#sideNav" "click" d.bindings resize_binding,
  );
  still = λ d. refl;
}

click-Refines : Refines (bind click_binding) bind_click
unfolding bind_click is_bound
click-Refines = record {
  same = λ d. ground (
    arith,
    is_bound-append "window" "resize" d.bindings click_binding,
    is_bound-append "#sideNav" "click" d.bindings click_binding,
  );
  still = λ d. refl;
}

module _ (b : Browser) where
  call : (c : Call) → Refines (invoke b c) (perform b c)
  call c = invoke-Refines b c

  same_call : (c k : Call) → c ≡ k → Refines (invoke b c) (perform b k)
  same_call c k e = rw e (invoke-Refines b k)

  morris_call :
      (kind : Morris) (v w : Value)
      → v ≡ w
      → Refines (invoke b (morris kind v)) (perform b (morris kind w))
  morris_call kind v w e = rw e (invoke-Refines b (morris kind w))

  pub styled_init_function-Refines : Refines (styled_init_function b) (init_function b)
  unfolding styled_init_function init_function
  styled_init_function-Refines =
      call _
      ⨾ resize-Refines
      ⨾ morris_call _ _ _ styled_agrees.0
      ⨾ morris_call _ _ _ styled_agrees.1
      ⨾ morris_call _ _ _ styled_agrees.2
      ⨾ morris_call _ _ _ styled_agrees.3
      ⨾ call _
      ⨾ call _
      ⨾ call _
      ⨾ call _
      ⨾ call _

  pub styled_ready-Refines : Refines (styled_ready b) (ready b)
  unfolding styled_ready ready
  styled_ready-Refines = styled_init_function-Refines ⨾ click-Refines

  default_init_function-Refines : Refines (default_init_function b) (plain_init_function b)
  unfolding default_init_function plain_init_function
  default_init_function-Refines =
      call _
      ⨾ resize-Refines
      ⨾ morris_call _ _ _ default_agrees.0
      ⨾ morris_call _ _ _ default_agrees.1
      ⨾ morris_call _ _ _ default_agrees.2
      ⨾ morris_call _ _ _ default_agrees.3

  chart_call :
      (kind : ChartKind) (id : String) (v w o p : Value)
      → v ≡ w
      → o ≡ p
      → Refines (new_chart b kind id v o) (perform b (chart kind id w p))
  chart_call kind id v w o p e f = rw (e, f) (invoke-Refines b (chart kind id w p))

  -- The three statements of a callback of chartjs.js.
  callback :
      (kind : ChartKind) (id : String) (v w o p : Value)
      → v ≡ w
      → o ≡ p
      → Refines
          (make_responsive b >> context_of b id >> new_chart b kind id v o)
          (draw b kind id w p)
  unfolding draw
  callback kind id v w o p e f =
      make_responsive-Refines b ⨾ context_of-Refines b id ⨾ chart_call kind id v w o p e f

  paintings-Refines : Pairwise Refines (paintings b) (callbacks b)
  unfolding paintings callbacks
  paintings-Refines = (
    callback _ _ _ _ _ _ grids_agree.1 grids_agree.0,
    (
      callback _ _ _ _ _ _ grids_agree.3 grids_agree.2,
      (
        callback _ _ _ _ _ _ grids_agree.5 grids_agree.4,
        (
          callback _ _ _ _ _ _ circles_agree.1 circles_agree.0,
          (
            callback _ _ _ _ _ _ circles_agree.3 circles_agree.2,
            (callback _ _ _ _ _ _ grids_agree.7 grids_agree.6, tt),
          ),
        ),
      ),
    ),
  )

  gauge_callbacks-Refines : Pairwise Refines (gauge_callbacks b) (gauges b)
  unfolding gauge_callbacks gauges
  gauge_callbacks-Refines = (call _, (call _, (call _, (call _, tt))))

  -- One statement pair of `window.onload`.
  sample :
      (kind : ChartKind) (id : String) (v w : Value)
      → v ≡ w
      → Refines (context_of b id >> new_chart b kind id v responsive) (draw_on b kind id w)
  unfolding draw_on
  sample kind id v w e = context_of-Refines b id ⨾ chart_call kind id v w _ _ e refl

  paint_samples-Refines : (s : Source) → Refines (paint_samples b (load_script s 0).0) (onload b s)
  unfolding paint_samples onload
  paint_samples-Refines s =
      let globals = ap (λ r. r.0) (load_script_agrees s) in
      sample _ _ _ _ (ap Globals.line_chart_data globals)
      ⨾ sample _ _ _ _ (ap Globals.bar_chart_data globals)
      ⨾ sample _ _ _ _ circles_agree.5
      ⨾ sample _ _ _ _ circles_agree.4

-- The scripts of the second tree, in the order of `Dashboard.Scripts.scripts`. Those of chart-data.js
-- are loaded with the first draw still to come.
abbrev pub document_scripts : Browser → Source → List Action
document_scripts b s =
    styled_ready b
    ∷ default_init_function b
    ∷ paint_samples b (load_script s 0).0
    ∷ (paintings b ++ gauge_callbacks b)

all_Refine : (b : Browser) (s : Source) → Pairwise Refines (document_scripts b s) (scripts b s)
all_Refine b s = (
  styled_ready-Refines b,
  (
    default_init_function-Refines b,
    (
      paint_samples-Refines b s,
      Pairwise-append Refines (paintings b) (callbacks b) (gauge_callbacks b) (gauges b)
          (paintings-Refines b) (gauge_callbacks-Refines b),
    ),
  ),
)

-- For each script of the second tree there is the one at the same place among those of the first tree
-- (Dashboard.Scripts), and on every document it ends as that does on the page that the document shows,
-- and leaves a document that shows the page that that leaves: the same library calls with the same
-- data in the same order, and a handler bound where that has one. It changes no element.
pub document_scripts-refine :
    (b : Browser) (s : Source) (i : ℕ) (m : Action) (d : Document)
    → get_elem? (document_scripts b s) i ≡ some m
    → (k : Script) × (get_elem? (scripts b s) i ≡ some k)
      × (((m d).0, page_of (m d).1) ≡ k (page_of d))
      × ((m d).1.elements ≡ d.elements)
document_scripts-refine b s i m d e =
    let (k, f, r) =
      Pairwise-get_elem? Refines (document_scripts b s) (scripts b s) i (all_Refine b s) e in
    (k, f, r.same d, r.still d)
