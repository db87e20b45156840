-- ===== src/Example/Document/Ends.antt =====
-- The end of an animation moves no element: it is where it was going.
use mathlib.Core.List.{append_assoc}
use toyhoodle.Prelude.{ℕ, zero, suc, String, ◌≡◌, refl, List, [], ◌∷◌, ◌++◌, arith}
use toyhoodle.Example.Document.{end_first, finish}
use toyhoodle.Example.Document.Queries.{Element, found, has_class, goal, last_value}

pub end_first-selectors :
    (queue : List (String × String)) (e : Element)
    → ((end_first queue e).selectors ≡ e.selectors) × ((end_first queue e).classes ≡ e.classes)
end_first-selectors [] e = (refl, refl)
end_first-selectors (a ∷ rest) e = (refl, refl)

pub finish-found :
    (i : ℕ) (sel : String) (es : List Element) → found sel (finish i es) ≡ found sel es
unfolding finish found
finish-found i sel [] = refl
finish-found zero sel (e ∷ es) = ground (arith, end_first-selectors e.queue e)
finish-found (suc i) sel (e ∷ es) = ground (arith, finish-found i sel es)

pub finish-has_class :
    (i : ℕ) (sel c : String) (es : List Element)
    → has_class sel c (finish i es) ≡ has_class sel c es
unfolding finish has_class
finish-has_class i sel c [] = refl
finish-has_class zero sel c (e ∷ es) = ground (arith, end_first-selectors e.queue e)
finish-has_class (suc i) sel c (e ∷ es) = ground (arith, finish-has_class i sel c es)

-- The end of an animation is where it was going.
end_first-goal :
    (p v : String) (queue : List (String × String)) (e : Element)
    → e.queue ≡ queue
    → last_value p v ((end_first queue e).styles ++ (end_first queue e).queue)
      ≡ last_value p v (e.styles ++ queue)
end_first-goal p v [] e h = rw h
end_first-goal p v ((k, w) ∷ rest) e h = rw (append_assoc e.styles ((k, w) ∷ []) rest)

pub finish-goal :
    (i : ℕ) (sel p : String) (es : List Element) → goal sel p (finish i es) ≡ goal sel p es
unfolding finish goal
finish-goal i sel p [] = refl
finish-goal zero sel p (e ∷ es) =
    ground (arith, end_first-goal p "" e.queue e refl, end_first-selectors e.queue e)
finish-goal (suc i) sel p (e ∷ es) = ground (arith, finish-goal i sel p es)
