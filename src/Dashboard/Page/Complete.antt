-- ===== src/Dashboard/Page/Complete.antt =====
-- What a chart library needs of the data that it is handed, as a test on the call.
use toyhoodle.Prelude.{
  ◌≡◌, refl, String, Bool, true, false, ◌&&◌, Option, none, some, List, [], ◌∷◌, ◌++◌, arith,
  length, ◌==◌,
}
use toyhoodle.Dashboard.Value.{Value, get, has, elements, texts, text, all}
use toyhoodle.Dashboard.Page.{
  Page, Morris, ChartKind, Call, metis_menu, morris, css_charts, trigger, easy_pie_chart, chart,
}
use toyhoodle.Dashboard.Page.Sequences.{attempted}

-- A row has a value (`null` too) under the key of the x axis and under each key of a series.
abbrev has_keys : Option String → List String → Value → Bool
has_keys none ykeys row = false
has_keys (some xkey) ykeys row = has row xkey && all (has row) ykeys

-- The series of a bar, area or line chart of Morris: as many labels as keys, and complete rows.
abbrev pub is_series : Value → Bool
is_series v =
    let ykeys = texts (elements (get "ykeys" v)) in
    (length (elements (get "labels" v)) == length ykeys)
    && all (has_keys (text (get "xkey" v)) ykeys) (elements (get "data" v))

abbrev pub has_all : List String → Value → Bool
has_all keys row = all (has row) keys

-- The data of a line, bar or radar chart of Chart.js: in each dataset one point for each label.
abbrev pub is_grid : Value → Bool
is_grid v =
    all (λ d. length (elements (get "data" d)) == length (elements (get "labels" v)))
      (elements (get "datasets" v))

abbrev pub is_segments : Value → Bool
is_segments v = all (has_all ("value" ∷ "color" ∷ "highlight" ∷ "label" ∷ [])) (elements (some v))

abbrev is_morris : Morris → Value → Bool
is_morris Morris.donut v = all (has_all ("label" ∷ "value" ∷ [])) (elements (get "data" v))
is_morris Morris.bar v = is_series v
is_morris Morris.area v = is_series v
is_morris Morris.line v = is_series v

abbrev is_chart : ChartKind → Value → Bool
is_chart ChartKind.line v = is_grid v
is_chart ChartKind.bar v = is_grid v
is_chart ChartKind.radar v = is_grid v
is_chart ChartKind.polar_area v = is_segments v
is_chart ChartKind.pie v = is_segments v
is_chart ChartKind.doughnut v = is_segments v

abbrev pub is_complete : Call → Bool
is_complete (morris kind v) = is_morris kind v
is_complete (chart kind id points options) = is_chart kind points
is_complete (metis_menu _) = true
is_complete (css_charts _ _) = true
is_complete (trigger _ _) = true
is_complete (easy_pie_chart _ _) = true

-- Every chart on record was handed complete data.
abbrev pub IsComplete : Page → Type 0
IsComplete p = all is_complete p.calls ≡ true

pub all-append {ℓ} :
    {A : Type ℓ} (q : A → Bool) (xs ys : List A)
    → all q xs ≡ true
    → all q ys ≡ true
    → all q (xs ++ ys) ≡ true
all-append q [] ys hx hy = hy
all-append q (x ∷ xs) ys hx hy = ground (arith, all-append q xs ys)

pub all-attempted :
    (q returns : Call → Bool) (cs : List Call)
    → all q cs ≡ true
    → all q (attempted returns cs) ≡ true
unfolding attempted
all-attempted q returns [] h = refl
all-attempted q returns (c ∷ cs) h = ground (arith, all-attempted q returns cs)
