-- ===== src/Dashboard/Page.antt =====
-- What the page scripts of monitorView/src/main/resources/static/webapp/assets/js do to a page.
-- jQuery and its plugins, Morris, Chart.js and the page's elements are not the scripts' own code: a
-- call of them is a `Call`, and the `Browser` says how it ends.
pub mod Sequences
pub mod Complete
use toyhoodle.Prelude.{String, Bool, true, List, [], ◌∷◌, ◌++◌, if◌then◌else◌}
use toyhoodle.Dashboard.Value.{Value}

pub data Morris : Type 0 where
  bar donut area line : Morris

pub data ChartKind : Type 0 where
  line bar radar polar_area pie doughnut : ChartKind

-- A call of a library: `$(selector).metisMenu()`, `Morris.Bar(options)` and its kind,
-- `$(selector).cssCharts(options)`, `$(selector).trigger(event)`, `$(selector).easyPieChart(options)`
-- and `new Chart(context).Line(points, options)` on the canvas of an id, and its kind.
pub data Call : Type 0 where
  metis_menu : String → Call
  morris : Morris → Value → Call
  css_charts : String → Value → Call
  trigger : String → String → Call
  easy_pie_chart : String → Value → Call
  chart : ChartKind → String → Value → Value → Call

-- `returns c`: the call returns, where `false` is a `TypeError`, `ReferenceError` or an error that
-- the library throws, as Morris does for a page without the element. `defines_chart`: the global
-- `Chart` is defined. `canvas id`: the page has a canvas of that id.
pub record Browser : Type 0 where
  pub returns : Call → Bool
  pub defines_chart : Bool
  pub canvas : String → Bool

-- `collapsed` is the class `collapse` of `div.sidebar-collapse`, `closed` the class `closed` of
-- `#sideNav`; `navbar_left` and `wrapper_margin` are the positions to which `.navbar-side` and
-- `#page-wrapper` were moved last, and `responsive` is `Chart.defaults.global.responsive`.
pub record Page : Type 0 where
  pub collapsed : Bool
  pub closed : Bool
  pub navbar_left : String
  pub wrapper_margin : String
  pub responsive : Bool
  pub resize_bound : Bool
  pub click_bound : Bool
  pub calls : List Call

pub data Outcome : Type 0 where
  done threw : Outcome

-- A statement of a script: how it ends, and the page after it. What it did before it threw stays.
abbrev pub Script : Type 0
Script = Page → Outcome × Page

infixl 5 ◌>>◌
abbrev pub ◌>>◌ : Script → Script → Script
◌>>◌ m k p = let (o, p') = m p in elim o [ done ↦ k p' | threw ↦ (threw, p') ]

abbrev pub modify : (Page → Page) → Script
modify f p = (done, f p)

module _ (b : Browser) where
  -- A call is on the record also when it throws.
  unfoldable pub perform : Call → Script
  perform c p = (if b.returns c then done else threw, record p { calls = p.calls ++ (c ∷ []) })

  -- `Chart.defaults.global.responsive = true`
  unfoldable pub set_responsive : Script
  set_responsive p = (
    if b.defines_chart then done else threw,
    if b.defines_chart then record p { responsive = true } else p,
  )

  -- `$('#id').get(0).getContext('2d')`, or `document.getElementById(id).getContext("2d")`
  unfoldable pub get_context : String → Script
  get_context id p = (if b.canvas id then done else threw, p)
