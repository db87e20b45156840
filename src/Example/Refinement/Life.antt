-- ===== src/Example/Refinement/Life.antt =====
-- The life of a page of the second tree: its start-up, then any steps.
use mathlib.Core.Path.{subst}
use toyhoodle.Prelude.{
  ℕ, ◌<◌, ◌≤◌, length, true, ◌≡◌, sym, ◌∙◌, ap, ◌⊎◌, List, [], ◌∷◌, arith, if◌then◌else◌,
}
use toyhoodle.Dashboard.Page.{Page, Browser, Call, threw, metis_menu}
use toyhoodle.Dashboard.Theme.{ready}
use toyhoodle.Dashboard.Theme.Sidebar.{run, run-IsPlaced, IsPlaced, clicks}
use toyhoodle.Dashboard.Theme.Startup.{startup_calls, ready_lem}
use toyhoodle.Dashboard.Value.{all}
use toyhoodle.Example.Document.Queries.{Element, has_class, shown}
use toyhoodle.Example.Document.Settling.{finish_all, queue_at, count, shown-finish_all}
use toyhoodle.Example.Document.{Document, Action, ◌>>◌, bind, invoke}
use toyhoodle.Example.Theme.{resize_binding, styled_init_function, styled_ready}
use toyhoodle.Example.Theme.Events.{Step, run_steps, events_of}
use toyhoodle.Example.Refinement.View.{page_of}
use toyhoodle.Example.Refinement.Handlers.{HasSideBar}
use toyhoodle.Example.Refinement.Steps.{StartedOnce, run_steps-page}
use toyhoodle.Example.Refinement.Scripts.{styled_ready-Refines}

-- On a page without handlers the action binds that of `load resize`, or throws before it does.
record BindsResize (m : Action) : Type 0 where
  binds :
      (d : Document)
      → d.bindings ≡ []
      → (((m d).0 ≡ threw) × ((m d).1.bindings ≡ [])) ⊎ ((m d).1.bindings ≡ resize_binding ∷ [])

module _ (b : Browser) where
  menu-BindsResize : BindsResize (invoke b (metis_menu "#main-menu") >> bind resize_binding)
  unfolding invoke
  menu-BindsResize = record { binds = λ d e. ground arith }

  then_call : {m : Action} (c : Call) → BindsResize m → BindsResize (m >> invoke b c)
  unfolding invoke
  then_call c h = record { binds = λ d e. ground (arith, h.binds d e) }

  styled_init_function-BindsResize : BindsResize (styled_init_function b)
  unfolding styled_init_function
  styled_init_function-BindsResize =
      let morris = then_call _ (then_call _ (then_call _ (then_call _ menu-BindsResize))) in
      then_call _ (then_call _ (then_call _ (then_call _ (then_call _ morris))))

  pub styled_ready-StartedOnce :
      (d : Document) → d.bindings ≡ [] → StartedOnce (styled_ready b d).1.bindings
  unfolding styled_ready
  styled_ready-StartedOnce d e = ground (arith, styled_init_function-BindsResize.binds d e)

-- On a new page with a side bar: after the start-up and any interleaving of events and ends of
-- animations, the page that the document shows is the one that the start-up and the events alone make
-- by Dashboard's reading; the ends of animations count for nothing.
pub page_of-run_steps :
    (b : Browser) (ss : List Step) (d : Document)
    → d.bindings ≡ []
    → HasSideBar d.elements
    → page_of (run_steps ss (styled_ready b d).1) ≡ run (events_of ss) (ready b (page_of d)).1
page_of-run_steps b ss d e h =
    let refines = styled_ready-Refines b in
    (run_steps-page ss (styled_ready b d).1
      (rw (refines.still d) h, styled_ready-StartedOnce b d e)).0
    ∙ ap (λ r. run (events_of ss) r.1) (refines.same d)

ready-click_bound :
    (b : Browser) (p : Page) → all b.returns startup_calls ≡ true → (ready b p).1.click_bound ≡ true
ready-click_bound b p ok = rw (ready_lem b p, ok) (ground arith)

-- On a new page with a side bar, where all library calls of the start-up return: after the start-up
-- and any steps with a click among them, once as many further animations of each element have ended
-- as it has queued, in any interleaving, the side bar and the page stand where the class `closed` of
-- `#sideNav` says: at -260px and 0px with it, at 0px and 260px without it.
pub side_bar_settles :
    (b : Browser) (ss : List Step) (ends : List ℕ) (d : Document) (es : List Element)
    → d.bindings ≡ []
    → HasSideBar d.elements
    → all b.returns startup_calls ≡ true
    → 0 < clicks (events_of ss)
    → (run_steps ss (styled_ready b d).1).elements ≡ es
    → ((i : ℕ) → length (queue_at i es) ≤ count i ends)
    → (shown ".navbar-side" "left" (finish_all ends es)
        ≡ (if has_class "#sideNav" "closed" es then "-260px" else "0px"))
      × (shown "#page-wrapper" "margin-left" (finish_all ends es)
          ≡ (if has_class "#sideNav" "closed" es then "0px" else "260px"))
side_bar_settles b ss ends d es e h ok some_click at_es fair =
    let page = page_of-run_steps b ss d e h in
    let bound = ready-click_bound b (page_of d) ok in
    let placed : IsPlaced (page_of (run_steps ss (styled_ready b d).1)) =
      subst (λ q. IsPlaced q) (sym page)
        (run-IsPlaced (events_of ss) (ready b (page_of d)).1 bound some_click) in
    let at = rw at_es at placed in
    (
      shown-finish_all ".navbar-side" "left" ends es fair ∙ at.0,
      shown-finish_all "#page-wrapper" "margin-left" ends es fair ∙ at.1,
    )
