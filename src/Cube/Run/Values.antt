-- ===== src/Cube/Run/Values.antt =====
-- What a parameter of a script holds while the script runs, and what Analyize asks of it. The names
-- and the data types are those that the compiler left in Exe.
use toyhoodle.Prelude.{
  ℕ, zero, suc, ◌+◌, ◌*◌, ◌-◌, Bool, true, false, ◌&&◌, leb, ltb, Option, none, some, List, [], ◌∷◌,
  get_elem?, if◌then◌else◌,
}
use toyhoodle.Cube.ParamChange.{Text, is_prefix, index_of}
use toyhoodle.Cube.Text.{codes, split_from}

-- An object of a column or of a function: a text, or another object by its number.
pub data Cell : Type 0 where
  text : Text → Cell
  object : ℕ → Cell

-- A row, in the order of its columns; a cell may be null.
abbrev pub Row : Type 0
Row = List (Text × Option Cell)

pub data Value : Type 0 where
  null : Value
  cell : Cell → Value
  rows : List Row → Value

-- What the run takes from JDBC, from the functions, and from objects that are no texts: `query` and
-- `call` are none where they raise an exception, and a query that gives no rows is null. What a query
-- gives may depend on the queries that the run sent before, the last one first: they are all that
-- changes the databases.
pub record Library : Type 0 where
  pub query : List (ℕ × Text) → ℕ → Text → Option (Option (List Row))
  pub call : Text → List Text → Option (Option Cell)
  pub show : Value → Text
  pub same : Value → Value → Bool

pub data Fault : Type 0 where
  no_param null_value no_index no_cast no_number if_can_not no_query no_function : Fault

-- The values by the number of the object, and the queries that were sent, each with its
-- connection, the last one first.
pub record Runner : Type 0 where
  pub values : List Value
  pub sent : List (ℕ × Text)

pub data Outcome (A : Type 0) : Type 0 where
  done : A → Runner → Outcome A
  raised : Fault → Outcome A
  no_rounds : Outcome A

abbrev pub R : Type 0 → Type 0
R A = Runner → Outcome A

infixl 5 ◌>>=◌
abbrev pub ◌>>=◌ : {A B : Type 0} → R A → (A → R B) → R B
◌>>=◌ m f r = elim (m r) [ done a r' ↦ f a r' | raised e ↦ raised e | no_rounds ↦ no_rounds ]

abbrev pub answer : {A : Type 0} → A → R A
answer a r = done a r

abbrev pub raise : {A : Type 0} → Fault → R A
raise e r = raised e

abbrev pub stop : {A : Type 0} → R A
stop r = no_rounds

abbrev pub from : {A : Type 0} → Fault → Option A → R A
from e none = raise e
from e (some a) = answer a

abbrev pub nullable : Option Cell → Value
nullable none = null
nullable (some c) = cell c

-- The value of an object; every number that the compiler gives is one of an object.
abbrev pub value_or_null : Option Value → Value
value_or_null none = null
value_or_null (some v) = v

unfoldable pub value_at : List Value → ℕ → Value
value_at values a = value_or_null (get_elem? values a)

unfoldable pub set_at : {A : Type 0} → ℕ → A → List A → List A
set_at i v [] = []
set_at zero v (w ∷ values) = v ∷ values
set_at (suc i) v (w ∷ values) = w ∷ set_at i v values

-- `param.value = v`
abbrev pub put_value : ℕ → Value → R (Unit {0})
put_value a v r = done tt (record r { values = set_at a v r.values })

abbrev pub get_value : ℕ → R Value
get_value a r = done (value_at r.values a) r

-- `split`, which drops the empty pieces at the end, unless the separator does not occur.
unfoldable pub without_end : List Text → List Text
without_end [] = []
without_end (piece ∷ pieces) = elim (without_end pieces) [
  | [] ↦ elim piece [ [] ↦ [] | c ∷ s ↦ (c ∷ s) ∷ [] ]
  | p ∷ ps ↦ piece ∷ p ∷ ps
]

abbrev pub kept : List Text → List Text
kept [] = []
kept (piece ∷ []) = piece ∷ []
kept (piece ∷ p ∷ ps) = without_end (piece ∷ p ∷ ps)

unfoldable pub split : Text → Text → List Text
unfolding split_from without_end
split sep s = kept (split_from sep 0 [] s)

-- `contains` of one character
unfoldable pub contains : ℕ → Text → Bool
unfolding index_of
contains c s = elim (index_of c s) [ none ↦ false | some i ↦ true ]

unfoldable pub ends_with : ℕ → Text → Bool
ends_with c [] = false
ends_with c (d ∷ []) = is_prefix (c ∷ []) (d ∷ [])
ends_with c (d ∷ e ∷ s) = ends_with c (e ∷ s)

-- `Integer.parseInt` on the digits of ASCII, with 2147483648 added to it, so that its order is that of ℕ.
unfoldable pub digits : ℕ → Text → Option ℕ
digits n [] = some n
digits n (c ∷ s) = if leb 48 c && leb c 57 then digits (10 * n + (c - 48)) s else none

abbrev pub number : Text → Option ℕ
number [] = none
number (c ∷ s) = digits 0 (c ∷ s)

abbrev pub above : Option ℕ → Option ℕ
above none = none
above (some n) = if ltb n 2147483648 then some (2147483648 + n) else none

abbrev pub below : Option ℕ → Option ℕ
below none = none
below (some n) = if leb n 2147483648 then some (2147483648 - n) else none

unfoldable pub parse_int : Text → Option ℕ
unfolding digits
parse_int [] = none
parse_int (c ∷ s) =
    if is_prefix (codes "-") (c ∷ s)
    then below (number s)
    else if is_prefix (codes "+") (c ∷ s)
    then above (number s)
    else above (number (c ∷ s))
