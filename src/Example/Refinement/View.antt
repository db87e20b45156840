-- ===== src/Example/Refinement/View.antt =====
-- The page of a document, and actions that a script describes.
use toyhoodle.Prelude.{
  String, Bool, false, ◌≡◌, refl, ◌&&◌, ◌||◌, List, [], ◌∷◌, ◌++◌, arith, str_eq,
}
use toyhoodle.Dashboard.Page.{
  Page, Browser, Script, Call, perform, set_responsive, get_context, ◌>>◌ as then_script,
}
use toyhoodle.Example.Document.{
  Binding, Document, Action, ◌>>◌, invoke, make_responsive, context_of,
}
use toyhoodle.Example.Document.Queries.{contains, has_class, goal}

-- Some handler is bound to the event of the target.
unfoldable pub is_bound : String → String → List Binding → Bool
is_bound target event [] = false
is_bound target event (b ∷ bs) =
    (str_eq b.target target && contains b.events event) || is_bound target event bs

pub is_bound-append :
    (target event : String) (bs : List Binding) (b : Binding)
    → is_bound target event (bs ++ (b ∷ []))
      ≡ (is_bound target event bs || (str_eq b.target target && contains b.events event))
unfolding is_bound
is_bound-append target event [] b = ground arith
is_bound-append target event (x ∷ bs) b = ground (arith, is_bound-append target event bs b)

-- What a document shows once its animations have ended.
abbrev pub page_of : Document → Page
page_of d = record {
  collapsed = has_class "div.sidebar-collapse" "collapse" d.elements;
  closed = has_class "#sideNav" "closed" d.elements;
  navbar_left = goal ".navbar-side" "left" d.elements;
  wrapper_margin = goal "#page-wrapper" "margin-left" d.elements;
  responsive = d.responsive;
  resize_bound = is_bound "window" "resize" d.bindings;
  click_bound = is_bound "#sideNav" "click" d.bindings;
  calls = d.calls;
}

-- The action does to the page of every document what the script does, ends as it does, and leaves
-- the elements of the document as they are.
pub record Refines (m : Action) (k : Script) : Type 0 where
  pub same : (d : Document) → ((m d).0, page_of (m d).1) ≡ k (page_of d)
  pub still : (d : Document) → (m d).1.elements ≡ d.elements

module _ (m n : Action) (j k : Script) (hm : Refines m j) (hn : Refines n k) where
  pub then-Refines : Refines (m >> n) (then_script j k)
  then-Refines = record {
    same = λ d. ground (arith, hm.same d, hn.same (m d).1);
    still = λ d. ground (arith, hm.still d, hn.still (m d).1);
  }

module _ (b : Browser) where
  pub invoke-Refines : (c : Call) → Refines (invoke b c) (perform b c)
  unfolding invoke perform
  invoke-Refines c = record { same = λ d. refl; still = λ d. refl }

  pub make_responsive-Refines : Refines (make_responsive b) (set_responsive b)
  unfolding make_responsive set_responsive
  make_responsive-Refines = record { same = λ d. ground arith; still = λ d. ground arith }

  pub context_of-Refines : (id : String) → Refines (context_of b id) (get_context b id)
  unfolding context_of get_context
  context_of-Refines id = record { same = λ d. refl; still = λ d. refl }
