-- ===== src/Example/Tests.antt =====
-- Runs of the scripts of example/assets/js on a small page.
use toyhoodle.Prelude.{
  ℕ, zero, suc, ◌≤◌, ◌%◌, String, true, false, ◌≡◌, refl, List, [], ◌∷◌, length, arith,
  if◌then◌else◌,
}
use toyhoodle.Dashboard.Page.{Browser}
use toyhoodle.Dashboard.Theme.{ready}
use toyhoodle.Dashboard.Theme.Sidebar.{run, clicks}
use toyhoodle.Dashboard.Samples.Points.{Source}
use toyhoodle.Example.Document.{Document, invoke, update, drop_class, finish}
use toyhoodle.Example.Document.Queries.{Element, found, has_class, shown}
use toyhoodle.Example.Document.Settling.{finish_all, queue_at, count}
use toyhoodle.Example.Theme.{
  styled_init_function, styled_ready, fire, run_handler, handle_resize, handle_click,
}
use toyhoodle.Example.Theme.Events.{
  Step, loaded, resized, clicked, finished, perform_step, run_steps, events_of,
}
use toyhoodle.Example.Refinement.View.{page_of}
use toyhoodle.Example.Refinement.Handlers.{HasSideBar}
use toyhoodle.Example.Refinement.Life.{page_of-run_steps, side_bar_settles}

abbrev kind_browser : Browser
kind_browser = record { returns = λ c. true; defines_chart = true; canvas = λ id. true }

abbrev element : String → Element
element sel = record { selectors = sel ∷ []; classes = []; styles = []; queue = [] }

-- The elements of example/empty.html that the handlers change.
abbrev empty_page : Document
empty_page = record {
  elements =
      element ".navbar-side"
      ∷ element "#sideNav"
      ∷ element "div.sidebar-collapse"
      ∷ element "#page-wrapper"
      ∷ [];
  bindings = [];
  responsive = false;
  calls = [];
}

abbrev coin : Source
coin = record { draw = λ n. n % 2; scale = 2 }

abbrev visit : List Step
visit = loaded 500 ∷ clicked ∷ finished 0 ∷ resized 900 ∷ clicked ∷ clicked ∷ []

abbrev after_visit : Document
after_visit = run_steps visit (styled_ready kind_browser empty_page).1

-- The first animation of the side bar has ended, its two later ones have not.
queued : queue_at 0 after_visit.elements ≡ ("left", "0px") ∷ ("left", "-260px") ∷ []
unfolding queue_at run_steps perform_step styled_ready styled_init_function invoke fire run_handler
    handle_resize handle_click update drop_class has_class finish
queued = refl

empty_page-HasSideBar : HasSideBar empty_page.elements
unfolding found
empty_page-HasSideBar = record { bar = refl; nav = refl; side = refl; wrapper = refl }

page_of-run_steps_example :
    page_of after_visit ≡ run (events_of visit) (ready kind_browser (page_of empty_page)).1
page_of-run_steps_example =
    page_of-run_steps kind_browser visit empty_page refl empty_page-HasSideBar

-- All that has ended: the side bar is closed, and stands to the left of the window.
settled :
    shown ".navbar-side" "left" (finish_all (0 ∷ 3 ∷ 3 ∷ 0 ∷ 3 ∷ []) after_visit.elements)
    ≡ "-260px"
unfolding queue_at run_steps perform_step styled_ready styled_init_function invoke fire run_handler
    handle_resize handle_click update drop_class has_class finish finish_all shown
settled = refl

abbrev ends : List ℕ
ends = 0 ∷ 3 ∷ 3 ∷ 0 ∷ 3 ∷ []

ends_fair : (i : ℕ) → length (queue_at i after_visit.elements) ≤ count i ends
unfolding queue_at run_steps perform_step styled_ready styled_init_function invoke fire run_handler
    handle_resize handle_click update drop_class has_class finish count
ends_fair zero = omega arith
ends_fair (suc zero) = omega arith
ends_fair (suc (suc zero)) = omega arith
ends_fair (suc (suc (suc zero))) = omega arith
ends_fair (suc (suc (suc (suc i)))) = omega arith

side_bar_settles_example :
    (shown ".navbar-side" "left" (finish_all ends after_visit.elements)
      ≡ (if has_class "#sideNav" "closed" after_visit.elements then "-260px" else "0px"))
    × (shown "#page-wrapper" "margin-left" (finish_all ends after_visit.elements)
        ≡ (if has_class "#sideNav" "closed" after_visit.elements then "0px" else "260px"))
unfolding clicks events_of
side_bar_settles_example =
    side_bar_settles kind_browser visit ends empty_page after_visit.elements refl
      empty_page-HasSideBar refl (omega arith) refl ends_fair
