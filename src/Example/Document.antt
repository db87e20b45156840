-- ===== src/Example/Document.antt =====
-- A page of static/example as its scripts see it: elements with their classes, inline styles and
-- queued animations, the bound handlers, and the library calls that were made. jQuery and the other
-- libraries are not the scripts' own code; how a call of them ends is the `Browser`'s to say.
pub mod Queries
pub mod Laws
pub mod Ends
pub mod Settling
use toyhoodle.Prelude.{ℕ, zero, suc, String, Bool, true, List, [], ◌∷◌, ◌++◌, str_eq, if◌then◌else◌}
use toyhoodle.Dashboard.Page.{Browser, Outcome, done, threw, ChartKind, chart, Call}
use toyhoodle.Dashboard.Value.{Value}
use Queries.{Element, contains}

-- The closures that custom-scripts.js and custom.js bind.
pub data Handler : Type 0 where
  fold_side_bar toggle_side_nav : Handler

-- `$(target).bind(events, handler)`
pub record Binding : Type 0 where
  pub target : String
  pub events : List String
  pub handler : Handler

-- `responsive` is `Chart.defaults.global.responsive`.
pub record Document : Type 0 where
  pub elements : List Element
  pub bindings : List Binding
  pub responsive : Bool
  pub calls : List Call

-- A statement: how it ends, and the document that it leaves.
abbrev pub Action : Type 0
Action = Document → Outcome × Document

infixl 5 ◌>>◌
abbrev pub ◌>>◌ : Action → Action → Action
◌>>◌ m k d = let (o, d') = m d in elim o [ done ↦ k d' | threw ↦ (threw, d') ]

-- A change of every element that a selector matches.
unfoldable pub update : String → (Element → Element) → List Element → List Element
update sel f [] = []
update sel f (e ∷ es) = (if contains e.selectors sel then f e else e) ∷ update sel f es

abbrev pub each : String → (Element → Element) → Document → Document
each sel f d = record d { elements = update sel f d.elements }

-- `addClass` leaves an element that has the class.
abbrev pub add_class : String → Element → Element
add_class c e = if contains e.classes c then e else record e { classes = e.classes ++ (c ∷ []) }

unfoldable pub drop_class : String → List String → List String
drop_class c [] = []
drop_class c (k ∷ ks) = let rest = drop_class c ks in if str_eq k c then rest else k ∷ rest

abbrev pub remove_class : String → Element → Element
remove_class c e = record e { classes = drop_class c e.classes }

-- `animate({p: v})` queues the animation behind those of the same element.
abbrev pub animate : String → String → Element → Element
animate p v e = record e { queue = e.queue ++ ((p, v) ∷ []) }

-- The first animation of an element ends: its position is the inline style from now on.
abbrev pub end_first : List (String × String) → Element → Element
end_first [] e = e
end_first ((p, v) ∷ rest) e = record e { styles = e.styles ++ ((p, v) ∷ []); queue = rest }

abbrev pub finish_first : Element → Element
finish_first e = end_first e.queue e

-- The same for the element of an index.
unfoldable pub finish : ℕ → List Element → List Element
finish i [] = []
finish zero (e ∷ es) = finish_first e ∷ es
finish (suc i) (e ∷ es) = e ∷ finish i es

abbrev pub bind : Binding → Action
bind binding d = (done, record d { bindings = d.bindings ++ (binding ∷ []) })

module _ (b : Browser) where
  -- A library call is on the record also when it throws.
  unfoldable pub invoke : Call → Action
  invoke c d = (if b.returns c then done else threw, record d { calls = d.calls ++ (c ∷ []) })

  -- `Chart.defaults.global.responsive = true`
  unfoldable pub make_responsive : Action
  make_responsive d = (
    if b.defines_chart then done else threw,
    if b.defines_chart then record d { responsive = true } else d,
  )

  -- The context of the canvas of an id; then `new Chart(context).Line(points, options)` and its kind.
  unfoldable pub context_of : String → Action
  context_of id d = (if b.canvas id then done else threw, d)

  abbrev pub new_chart : ChartKind → String → Value → Value → Action
  new_chart kind id points options = invoke (chart kind id points options)
