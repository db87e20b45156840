-- ===== src/Example/Refinement/Handlers.antt =====
-- The handlers of example/assets/js/custom-scripts.js, element by element, do to the page that a
-- document shows what those of Dashboard.Theme do to a page.
use toyhoodle.Prelude.{ℕ, String, true, ◌≡◌, refl, ◌∙◌, List, arith, ltb, Bool-cases, inl, inr}
use toyhoodle.Dashboard.Theme.{on_resize, on_click}
use toyhoodle.Example.Document.{Document, update, add_class, remove_class, animate}
use toyhoodle.Example.Document.Queries.{Element, found, has_class}
use toyhoodle.Example.Document.Laws.{
  has_class-add, has_class-remove, has_class-add_ne, has_class-remove_ne, has_class-animate,
  goal-animate, goal-animate_ne, goal-add, goal-remove, found-add, found-remove, found-animate,
  found-update,
}
use toyhoodle.Example.Theme.{handle_resize, handle_click}
use toyhoodle.Example.Refinement.View.{page_of}

-- The page has the elements that the handlers change.
pub record HasSideBar (es : List Element) : Type 0 where
  pub bar : found "div.sidebar-collapse" es ≡ true
  pub nav : found "#sideNav" es ≡ true
  pub side : found ".navbar-side" es ≡ true
  pub wrapper : found "#page-wrapper" es ≡ true

ruleset element_laws = (
  has_class-add, has_class-remove, has_class-animate, goal-add, goal-remove, found-add,
  found-remove, found-animate,
)

pub handle_resize-page :
    (w : ℕ) (d : Document)
    → HasSideBar d.elements
    → page_of (handle_resize w d) ≡ on_resize w (page_of d)
unfolding handle_resize on_resize
handle_resize-page w d h = elim (Bool-cases (ltb w 768)) [
  | inl narrow ↦ rw narrow (
      simp (
        element_laws,
        h.bar,
        λ (es : List Element).
            has_class-add_ne "div.sidebar-collapse" "#sideNav" "collapse" "closed" refl es,
      ))
  | inr wide ↦ rw wide (
      simp (
        element_laws,
        λ (es : List Element).
            has_class-remove_ne "div.sidebar-collapse" "#sideNav" "collapse" "closed" refl es,
      ))
]

pub handle_click-page :
    (d : Document) → HasSideBar d.elements → page_of (handle_click d) ≡ on_click (page_of d)
unfolding handle_click on_click
handle_click-page d h = elim (Bool-cases (has_class "#sideNav" "closed" d.elements)) [
  | inl shut ↦
      let es = update ".navbar-side" (animate "left" "0px") d.elements in
      let fs = update "#sideNav" (remove_class "closed") es in
      let there : found "#page-wrapper" fs ≡ true = simp (element_laws, h.wrapper) in
      rw shut (
        simp (
          element_laws,
          goal-animate "#page-wrapper" "margin-left" "260px" fs there,
          goal-animate ".navbar-side" "left" "0px" d.elements h.side,
          goal-animate_ne "#page-wrapper" ".navbar-side" "left" "margin-left" "260px" fs refl,
          has_class-remove_ne "#sideNav" "div.sidebar-collapse" "closed" "collapse" refl es,
        ))
  | inr wide ↦
      let es = update "#sideNav" (add_class "closed") d.elements in
      let fs = update ".navbar-side" (animate "left" "-260px") es in
      let there : found "#page-wrapper" fs ≡ true = simp (element_laws, h.wrapper) in
      let side : found ".navbar-side" es ≡ true = simp (element_laws, h.side) in
      rw wide (
        simp (
          element_laws,
          h.nav,
          goal-animate "#page-wrapper" "margin-left" "0px" fs there,
          goal-animate ".navbar-side" "left" "-260px" es side,
          goal-animate_ne "#page-wrapper" ".navbar-side" "left" "margin-left" "0px" fs refl,
          has_class-add_ne "#sideNav" "div.sidebar-collapse" "closed" "collapse" refl d.elements,
        ))
]

HasSideBar-update :
    (sel : String) (f : Element → Element) (es : List Element)
    → ((e : Element) → (f e).selectors ≡ e.selectors)
    → HasSideBar es
    → HasSideBar (update sel f es)
HasSideBar-update sel f es keeps h = record {
  bar = found-update sel f "div.sidebar-collapse" es keeps ∙ h.bar;
  nav = found-update sel f "#sideNav" es keeps ∙ h.nav;
  side = found-update sel f ".navbar-side" es keeps ∙ h.side;
  wrapper = found-update sel f "#page-wrapper" es keeps ∙ h.wrapper;
}

-- The handlers leave the elements in place.
pub handle_resize-HasSideBar :
    (w : ℕ) (d : Document) → HasSideBar d.elements → HasSideBar (handle_resize w d).elements
unfolding handle_resize
handle_resize-HasSideBar w d h = elim (Bool-cases (ltb w 768)) [
  | inl narrow ↦ rw narrow (HasSideBar-update _ _ _ (λ e. ground arith) h)
  | inr wide ↦ rw wide (HasSideBar-update _ _ _ (λ e. refl) h)
]

pub handle_click-HasSideBar :
    (d : Document) → HasSideBar d.elements → HasSideBar (handle_click d).elements
unfolding handle_click
handle_click-HasSideBar d h = elim (Bool-cases (has_class "#sideNav" "closed" d.elements)) [
  | inl shut ↦ rw shut (
      HasSideBar-update _ _ _ (λ e. refl)
        (HasSideBar-update _ _ _ (λ e. refl) (HasSideBar-update _ _ _ (λ e. refl) h)))
  | inr wide ↦ rw wide (
      HasSideBar-update _ _ _ (λ e. refl)
        (HasSideBar-update _ _ _ (λ e. refl) (HasSideBar-update _ _ _ (λ e. ground arith) h)))
]

pub handle_resize-bindings : (w : ℕ) (d : Document) → (handle_resize w d).bindings ≡ d.bindings
unfolding handle_resize
handle_resize-bindings w d = ground arith

pub handle_click-bindings : (d : Document) → (handle_click d).bindings ≡ d.bindings
unfolding handle_click
handle_click-bindings d = ground arith
