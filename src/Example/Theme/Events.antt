-- ===== src/Example/Theme/Events.antt =====
-- What happens to a page of the second tree after its start: events of the window and of the side
-- bar's button, and the ends of animations, in any order.
use toyhoodle.Prelude.{ℕ, List, [], ◌∷◌}
use toyhoodle.Dashboard.Theme.Sidebar.{Event, resize, click}
use toyhoodle.Example.Document.{Document, finish}
use toyhoodle.Example.Theme.{fire}

-- `load` and `resize` of the window at a width, a click on `#sideNav`, and the end of the first queued
-- animation of the element of an index.
pub data Step : Type 0 where
  loaded resized : ℕ → Step
  clicked : Step
  finished : ℕ → Step

-- The handler of a click reads no width.
unfoldable pub perform_step : Step → Document → Document
perform_step (loaded w) d = fire w "window" "load" d.bindings d
perform_step (resized w) d = fire w "window" "resize" d.bindings d
perform_step clicked d = fire 0 "#sideNav" "click" d.bindings d
perform_step (finished i) d = record d { elements = finish i d.elements }

unfoldable pub run_steps : List Step → Document → Document
run_steps [] d = d
run_steps (s ∷ ss) d = run_steps ss (perform_step s d)

-- The events among the steps, as Dashboard.Theme.Sidebar has them.
unfoldable pub events_of : List Step → List Event
events_of [] = []
events_of (loaded w ∷ ss) = resize w ∷ events_of ss
events_of (resized w ∷ ss) = resize w ∷ events_of ss
events_of (clicked ∷ ss) = click ∷ events_of ss
events_of (finished _ ∷ ss) = events_of ss
