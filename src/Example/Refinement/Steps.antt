-- ===== src/Example/Refinement/Steps.antt =====
-- Any interleaving of events and ends of animations refines the sequence of its events.
use toyhoodle.Prelude.{
  ℕ, Bool, true, false, ◌≡◌, refl, ◌∙◌, ◌⊎◌, inl, inr, List, [], ◌∷◌, arith, if◌then◌else◌,
}
use toyhoodle.Dashboard.Page.{Page}
use toyhoodle.Dashboard.Theme.{on_resize, on_click}
use toyhoodle.Dashboard.Theme.Sidebar.{resize, click, dispatch, run}
use toyhoodle.Example.Document.{Binding, Document, finish}
use toyhoodle.Example.Document.Queries.{Element}
use toyhoodle.Example.Document.Ends.{finish-found, finish-has_class, finish-goal}
use toyhoodle.Example.Theme.{
  handle_resize, handle_click, run_handler, fire, resize_binding, click_binding,
}
use toyhoodle.Example.Theme.Events.{
  Step, loaded, resized, clicked, finished, perform_step, run_steps, events_of,
}
use toyhoodle.Example.Refinement.View.{page_of, is_bound}
use toyhoodle.Example.Refinement.Handlers.{
  HasSideBar, handle_resize-page, handle_click-page, handle_resize-HasSideBar,
  handle_click-HasSideBar, handle_resize-bindings, handle_click-bindings,
}

-- The handlers bound by one start-up, complete or broken off; it runs once for each page.
abbrev pub StartedOnce : List Binding → Type 0
StartedOnce bs = (bs ≡ []) ⊎ (bs ≡ resize_binding ∷ []) ⊎ (bs ≡ resize_binding ∷ click_binding ∷ [])

abbrev pub IsLive : Document → Type 0
IsLive d = HasSideBar d.elements × StartedOnce d.bindings

finish-HasSideBar : (i : ℕ) (es : List Element) → HasSideBar es → HasSideBar (finish i es)
finish-HasSideBar i es h = record {
  bar = finish-found i "div.sidebar-collapse" es ∙ h.bar;
  nav = finish-found i "#sideNav" es ∙ h.nav;
  side = finish-found i ".navbar-side" es ∙ h.side;
  wrapper = finish-found i "#page-wrapper" es ∙ h.wrapper;
}

finished-page : (i : ℕ) (d : Document) → page_of (perform_step (finished i) d) ≡ page_of d
unfolding perform_step
finished-page i d = simp (finish-has_class, finish-goal)

-- A step does to the page that the document shows what its event does to a page, if it is one.
abbrev event_page : Step → Page → Page
event_page (loaded w) p = dispatch (resize w) p
event_page (resized w) p = dispatch (resize w) p
event_page clicked p = dispatch click p
event_page (finished i) p = p

fire_load :
    (w : ℕ) (d : Document)
    → StartedOnce d.bindings
    → fire w "window" "load" d.bindings d
      ≡ (if is_bound "window" "resize" d.bindings then handle_resize w d else d)
unfolding fire run_handler is_bound
fire_load w d (inl e) = rw e refl
fire_load w d (inr (inl e)) = rw e refl
fire_load w d (inr (inr e)) = rw e refl

fire_resize :
    (w : ℕ) (d : Document)
    → StartedOnce d.bindings
    → fire w "window" "resize" d.bindings d
      ≡ (if is_bound "window" "resize" d.bindings then handle_resize w d else d)
unfolding fire run_handler is_bound
fire_resize w d (inl e) = rw e refl
fire_resize w d (inr (inl e)) = rw e refl
fire_resize w d (inr (inr e)) = rw e refl

fire_click :
    (w : ℕ) (d : Document)
    → StartedOnce d.bindings
    → fire w "#sideNav" "click" d.bindings d
      ≡ (if is_bound "#sideNav" "click" d.bindings then handle_click d else d)
unfolding fire run_handler is_bound
fire_click w d (inl e) = rw e refl
fire_click w d (inr (inl e)) = rw e refl
fire_click w d (inr (inr e)) = rw e refl

resize_step :
    (bound : Bool) (w : ℕ) (d : Document)
    → IsLive d
    → let d' = if bound then handle_resize w d else d in
      (page_of d' ≡ (if bound then on_resize w (page_of d) else page_of d)) × IsLive d'
resize_step false w d h = (refl, h)
resize_step true w d h = (
  handle_resize-page w d h.0,
  (handle_resize-HasSideBar w d h.0, rw (handle_resize-bindings w d) h.1),
)

click_step :
    (bound : Bool) (d : Document)
    → IsLive d
    → let d' = if bound then handle_click d else d in
      (page_of d' ≡ (if bound then on_click (page_of d) else page_of d)) × IsLive d'
click_step false d h = (refl, h)
click_step true d h =
    (handle_click-page d h.0, (handle_click-HasSideBar d h.0, rw (handle_click-bindings d) h.1))

perform_step-page :
    (s : Step) (d : Document)
    → IsLive d
    → (page_of (perform_step s d) ≡ event_page s (page_of d)) × IsLive (perform_step s d)
unfolding perform_step dispatch
perform_step-page (loaded w) d h = rw (fire_load w d h.1) (resize_step _ w d h)
perform_step-page (resized w) d h = rw (fire_resize w d h.1) (resize_step _ w d h)
perform_step-page clicked d h = rw (fire_click 0 d h.1) (click_step _ d h)
perform_step-page (finished i) d h = (finished-page i d, (finish-HasSideBar i d.elements h.0, h.1))

pub run_steps-page :
    (ss : List Step) (d : Document)
    → IsLive d
    → (page_of (run_steps ss d) ≡ run (events_of ss) (page_of d)) × IsLive (run_steps ss d)
unfolding run_steps events_of run
run_steps-page [] d h = (refl, h)
run_steps-page (loaded w ∷ ss) d h =
    ground (arith, perform_step-page (loaded w) d h, run_steps-page ss (perform_step (loaded w) d))
run_steps-page (resized w ∷ ss) d h =
    ground
      (arith, perform_step-page (resized w) d h, run_steps-page ss (perform_step (resized w) d))
run_steps-page (clicked ∷ ss) d h =
    ground (arith, perform_step-page clicked d h, run_steps-page ss (perform_step clicked d))
run_steps-page (finished i ∷ ss) d h =
    ground
      (arith, perform_step-page (finished i) d h, run_steps-page ss (perform_step (finished i) d))
