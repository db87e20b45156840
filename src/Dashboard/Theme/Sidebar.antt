-- ===== src/Dashboard/Theme/Sidebar.antt =====
-- The side bar after any sequence of events, by the handlers that custom-scripts.js binds.
use toyhoodle.Prelude.{
  ℕ, suc, ◌<◌, ◌≡◌, refl, Bool, true, false, not, ◌||◌, List, [], ◌∷◌, Option, none, some, arith,
  ltb, if◌then◌else◌,
}
use toyhoodle.Dashboard.Value.{all}
use toyhoodle.Dashboard.Page.{Page, Browser}
use toyhoodle.Dashboard.Theme.{on_resize, on_click, ready}
use toyhoodle.Dashboard.Theme.Startup.{menu_call, chart_calls, ready_lem}

-- `load` and `resize` of the window at a width, and a click on `#sideNav`.
pub data Event : Type 0 where
  resize : ℕ → Event
  click : Event

-- An event runs its handler, if that is bound.
unfoldable pub dispatch : Event → Page → Page
dispatch (resize width) p = if p.resize_bound then on_resize width p else p
dispatch click p = if p.click_bound then on_click p else p

unfoldable pub run : List Event → Page → Page
run [] p = p
run (e ∷ es) p = run es (dispatch e p)

unfoldable pub clicks : List Event → ℕ
clicks [] = 0
clicks (resize _ ∷ es) = clicks es
clicks (click ∷ es) = suc (clicks es)

-- Whether the number of clicks is odd.
unfoldable pub is_odd : ℕ → Bool
is_odd ℕ.zero = false
is_odd (suc n) = not (is_odd n)

-- The width at the last `load` or `resize`, `w` where there is none.
unfoldable pub last_width : Option ℕ → List Event → Option ℕ
last_width w [] = w
last_width w (resize v ∷ es) = last_width (some v) es
last_width w (click ∷ es) = last_width w es

-- The side bar as the last width has it: collapsed below 768 pixels.
abbrev pub is_narrow : Bool → Option ℕ → Bool
is_narrow old none = old
is_narrow old (some w) = ltb w 768

-- The side bar stands where the class `closed` says.
abbrev pub IsPlaced : Page → Type 0
IsPlaced p =
    (p.navbar_left ≡ (if p.closed then "-260px" else "0px"))
    × (p.wrapper_margin ≡ (if p.closed then "0px" else "260px"))

dispatch-click : (p : Page) → p.click_bound ≡ true → dispatch click p ≡ on_click p
unfolding dispatch
dispatch-click p h = ground arith

dispatch-resize : (w : ℕ) (p : Page) → p.resize_bound ≡ true → dispatch (resize w) p ≡ on_resize w p
unfolding dispatch
dispatch-resize w p h = ground arith

-- Where the handler of clicks is bound, the side bar is closed after the events exactly if it was
-- closed before and the clicks are even in number, or was open and they are odd.
pub run-closed :
    (es : List Event) (p : Page)
    → p.click_bound ≡ true
    → (run es p).closed ≡ (if is_odd (clicks es) then not p.closed else p.closed)
unfolding run clicks is_odd dispatch on_click on_resize
run-closed [] p h = ground arith
run-closed (resize w ∷ es) p h = ground (arith, run-closed es (dispatch (resize w) p))
run-closed (click ∷ es) p h = ground (arith, run-closed es (dispatch click p))

run-collapsed_from :
    (es : List Event) (old : Bool) (w : Option ℕ) (p : Page)
    → p.resize_bound ≡ true
    → p.collapsed ≡ is_narrow old w
    → (run es p).collapsed ≡ is_narrow old (last_width w es)
unfolding run last_width dispatch on_click on_resize
run-collapsed_from [] old w p h e = e
run-collapsed_from (resize v ∷ es) old w p h e =
    ground (arith, run-collapsed_from es old (some v) (dispatch (resize v) p))
run-collapsed_from (click ∷ es) old w p h e =
    ground (arith, run-collapsed_from es old w (dispatch click p))

-- Where the handler of `load resize` is bound, the last width alone decides whether the side bar is
-- collapsed: below 768 pixels it is, from 768 it is not; with no such event it stays as it was.
pub run-collapsed :
    (es : List Event) (p : Page)
    → p.resize_bound ≡ true
    → (run es p).collapsed ≡ is_narrow p.collapsed (last_width none es)
run-collapsed es p h = run-collapsed_from es p.collapsed none p h refl

dispatch-IsPlaced : (e : Event) (p : Page) → IsPlaced p → IsPlaced (dispatch e p)
unfolding dispatch on_click on_resize
dispatch-IsPlaced (resize w) p h = ground arith
dispatch-IsPlaced click p h = ground arith

run-IsPlaced_from : (es : List Event) (p : Page) → IsPlaced p → IsPlaced (run es p)
unfolding run
run-IsPlaced_from [] p h = h
run-IsPlaced_from (e ∷ es) p h = run-IsPlaced_from es (dispatch e p) (dispatch-IsPlaced e p h)

dispatch-click_bound :
    (e : Event) (p : Page) {v : Bool} → p.click_bound ≡ v → (dispatch e p).click_bound ≡ v
unfolding dispatch on_click on_resize
dispatch-click_bound (resize w) p h = ground arith
dispatch-click_bound click p h = ground arith

click-IsPlaced : (p : Page) → p.click_bound ≡ true → IsPlaced (dispatch click p)
unfolding dispatch on_click
click-IsPlaced p h = ground arith

run-unbound : (es : List Event) (p : Page) → p.click_bound ≡ false → (run es p).closed ≡ p.closed
unfolding run dispatch on_resize
run-unbound [] p h = refl
run-unbound (resize w ∷ es) p h = ground (arith, run-unbound es (dispatch (resize w) p))
run-unbound (click ∷ es) p h = ground (arith, run-unbound es (dispatch click p))

-- Once a click has been handled, the positions of the side bar and of the page agree with the class
-- `closed` after every further event, whatever the page was before.
pub run-IsPlaced :
    (es : List Event) (p : Page) → p.click_bound ≡ true → 0 < clicks es → IsPlaced (run es p)
unfolding run clicks
run-IsPlaced [] p h c = absurd (omega arith)
run-IsPlaced (resize w ∷ es) p h c =
    run-IsPlaced es (dispatch (resize w) p) (dispatch-click_bound (resize w) p h) c
run-IsPlaced (click ∷ es) p h c = run-IsPlaced_from es (dispatch click p) (click-IsPlaced p h)

or-false : (a b : Bool) → a ≡ false → b ≡ false → (a || b) ≡ false
or-false a b h e = ground arith

-- Where some library call of the start-up throws and no handler of clicks was bound before: after the
-- start-up and any sequence of events the side bar is closed exactly if it was closed before.
pub ready-run-closed :
    (b : Browser) (es : List Event) (p : Page)
    → p.click_bound ≡ false
    → all b.returns (menu_call ∷ chart_calls) ≡ false
    → (run es (ready b p).1).closed ≡ p.closed
ready-run-closed b es p h e = rw (ready_lem b p) (run-unbound es _ (or-false _ _ h e))
