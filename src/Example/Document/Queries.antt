-- ===== src/Example/Document/Queries.antt =====
-- Elements of a page, and what can be read off them.
use toyhoodle.Prelude.{String, Bool, false, ◌&&◌, ◌||◌, List, [], ◌∷◌, ◌++◌, str_eq, if◌then◌else◌}

-- `selectors` are those of the scripts' selectors that match the element, `styles` its inline styles,
-- of which the last of a property counts, and `queue` its animations that have not ended.
pub record Element : Type 0 where
  pub selectors : List String
  pub classes : List String
  pub styles : List (String × String)
  pub queue : List (String × String)

abbrev pub contains : List String → String → Bool
contains [] s = false
contains (x ∷ xs) s = str_eq x s || contains xs s

-- Whether the selector matches some element.
unfoldable pub found : String → List Element → Bool
found sel [] = false
found sel (e ∷ es) = contains e.selectors sel || found sel es

-- `$(sel).hasClass(c)`
unfoldable pub has_class : String → String → List Element → Bool
has_class sel c [] = false
has_class sel c (e ∷ es) = (contains e.selectors sel && contains e.classes c) || has_class sel c es

-- The last value of a property, `v` where it has none.
unfoldable pub last_value : String → String → List (String × String) → String
last_value p v [] = v
last_value p v ((k, w) ∷ rest) = last_value p (if str_eq k p then w else v) rest

-- A property of the first element that the selector matches: as it is, and once its animations end.
unfoldable pub shown : String → String → List Element → String
unfolding last_value
shown sel p [] = ""
shown sel p (e ∷ es) = if contains e.selectors sel then last_value p "" e.styles else shown sel p es

unfoldable pub goal : String → String → List Element → String
unfolding last_value
goal sel p [] = ""
goal sel p (e ∷ es) =
    if contains e.selectors sel then last_value p "" (e.styles ++ e.queue) else goal sel p es
