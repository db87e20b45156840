-- ===== src/Example/Document/Laws.antt =====
-- What the changes of elements do to the queries.
use mathlib.Core.List.{append_assoc}
use toyhoodle.Prelude.{
  String, true, false, ◌≡◌, refl, ◌||◌, List, [], ◌∷◌, ◌++◌, str_eq, eq_iff, arith, if◌then◌else◌,
}
use toyhoodle.Example.Document.{update, add_class, drop_class, remove_class, animate}
use toyhoodle.Example.Document.Queries.{Element, contains, found, has_class, last_value, goal}

pub contains-append :
    (xs : List String) (x s : String) → contains (xs ++ (x ∷ [])) s ≡ (contains xs s || str_eq x s)
contains-append [] x s = ground arith
contains-append (y ∷ xs) x s = ground (arith, contains-append xs x s)

pub contains-drop_class_self :
    (c : String) (ks : List String) → contains (drop_class c ks) c ≡ false
unfolding drop_class
contains-drop_class_self c [] = refl
contains-drop_class_self c (k ∷ ks) = ground (arith, contains-drop_class_self c ks)

pub contains-drop_class_ne :
    (c s : String) (ks : List String)
    → str_eq c s ≡ false
    → contains (drop_class c ks) s ≡ contains ks s
unfolding drop_class
contains-drop_class_ne c s [] h = refl
contains-drop_class_ne c s (k ∷ ks) h =
    ground (arith, contains-drop_class_ne c s ks h, eq_iff k c, eq_iff k s, eq_iff c s)

pub last_value-append :
    (p v k w : String) (l : List (String × String))
    → last_value p v (l ++ ((k, w) ∷ [])) ≡ (if str_eq k p then w else last_value p v l)
unfolding last_value
last_value-append p v k w [] = refl
last_value-append p v k w ((j, u) ∷ l) = last_value-append p (if str_eq j p then u else v) k w l

module _ (sel : String) (f : Element → Element) where
  pub found-update :
      (other : String) (es : List Element)
      → ((e : Element) → (f e).selectors ≡ e.selectors)
      → found other (update sel f es) ≡ found other es
  unfolding found update
  found-update other [] h = refl
  found-update other (e ∷ es) h = ground (arith, found-update other es h, h e)

  pub has_class-update :
      (other c : String) (es : List Element)
      → ((e : Element) → (f e).selectors ≡ e.selectors)
      → ((e : Element) → contains (f e).classes c ≡ contains e.classes c)
      → has_class other c (update sel f es) ≡ has_class other c es
  unfolding has_class update
  has_class-update other c [] h k = refl
  has_class-update other c (e ∷ es) h k = ground (arith, has_class-update other c es h k, h e, k e)

  pub goal-update :
      (other p : String) (es : List Element)
      → ((e : Element) → (f e).selectors ≡ e.selectors)
      → ((e : Element)
          → last_value p "" ((f e).styles ++ (f e).queue) ≡ last_value p "" (e.styles ++ e.queue))
      → goal other p (update sel f es) ≡ goal other p es
  unfolding goal update
  goal-update other p [] h k = refl
  goal-update other p (e ∷ es) h k = ground (arith, goal-update other p es h k, h e, k e)

module _ (sel c : String) where
  pub has_class-add :
      (es : List Element) → has_class sel c (update sel (add_class c) es) ≡ found sel es
  unfolding has_class found update
  has_class-add [] = refl
  has_class-add (e ∷ es) =
      ground (arith, has_class-add es, contains-append e.classes c c, eq_iff c c)

  pub has_class-remove :
      (es : List Element) → has_class sel c (update sel (remove_class c) es) ≡ false
  unfolding has_class update
  has_class-remove [] = refl
  has_class-remove (e ∷ es) =
      ground (arith, has_class-remove es, contains-drop_class_self c e.classes)

pub goal-animate :
    (sel p v : String) (es : List Element)
    → found sel es ≡ true
    → goal sel p (update sel (animate p v) es) ≡ v
unfolding goal found update
goal-animate sel p v [] h = cc
goal-animate sel p v (e ∷ es) h = ground (
  arith,
  goal-animate sel p v es,
  append_assoc e.styles e.queue ((p, v) ∷ []),
  last_value-append p "" p v (e.styles ++ e.queue),
  eq_iff p p,
)

-- An animation of another property leaves the goal of this one.
pub goal-animate_ne :
    (sel other p q v : String) (es : List Element)
    → str_eq q p ≡ false
    → goal other p (update sel (animate q v) es) ≡ goal other p es
goal-animate_ne sel other p q v es h =
    goal-update sel (animate q v) other p es (λ e. refl)
      λ e. ground (
        arith,
        append_assoc e.styles e.queue ((q, v) ∷ []),
        last_value-append p "" q v (e.styles ++ e.queue),
      )

-- Only `addClass` and `removeClass` of the same class are seen by `hasClass`.
module _ (sel other c k : String) (h : str_eq c k ≡ false) (es : List Element) where
  pub has_class-add_ne : has_class other k (update sel (add_class c) es) ≡ has_class other k es
  has_class-add_ne =
      has_class-update sel (add_class c) other k es (λ e. ground arith)
        λ e. ground (arith, contains-append e.classes c k)

  pub has_class-remove_ne :
      has_class other k (update sel (remove_class c) es) ≡ has_class other k es
  has_class-remove_ne =
      has_class-update sel (remove_class c) other k es (λ e. refl)
        λ e. contains-drop_class_ne c k e.classes h

pub has_class-animate :
    (sel other c p v : String) (es : List Element)
    → has_class other c (update sel (animate p v) es) ≡ has_class other c es
has_class-animate sel other c p v es =
    has_class-update sel (animate p v) other c es (λ e. refl) (λ e. refl)

-- Classes do not move an element.
module _ (sel other c p : String) (es : List Element) where
  pub goal-add : goal other p (update sel (add_class c) es) ≡ goal other p es
  goal-add = goal-update sel (add_class c) other p es (λ e. ground arith) (λ e. ground arith)

  pub goal-remove : goal other p (update sel (remove_class c) es) ≡ goal other p es
  goal-remove = goal-update sel (remove_class c) other p es (λ e. refl) (λ e. refl)

-- No change of an element changes what selects it.
module _ (sel other c : String) (es : List Element) where
  pub found-add : found other (update sel (add_class c) es) ≡ found other es
  found-add = found-update sel (add_class c) other es (λ e. ground arith)

  pub found-remove : found other (update sel (remove_class c) es) ≡ found other es
  found-remove = found-update sel (remove_class c) other es (λ e. refl)

pub found-animate :
    (sel other p v : String) (es : List Element)
    → found other (update sel (animate p v) es) ≡ found other es
found-animate sel other p v es = found-update sel (animate p v) other es (λ e. refl)
