-- ===== src/Cube/Run/Conditions.antt =====
-- What Analyize reads of a parameter (getParamValue), and the conditions of IF and WHILE.
use toyhoodle.Prelude.{
  ℕ, Bool, true, false, ◌&&◌, not, ltb, Option, none, some, List, [], ◌∷◌, get_elem?, if◌then◌else◌,
}
use toyhoodle.Cube.ParamChange.{
  Text, is_prefix, Param, Change, changed, not_definition, null_pointer, no_end, param_change,
}
use toyhoodle.Cube.Text.{codes, text_eq, trim_split}
use toyhoodle.Cube.Compile.Names.{DataType, Exe, find}
use toyhoodle.Cube.Run.Values.{
  Cell, text, object, Row, Value, null, cell, rows, Library, no_param, null_value, no_index,
  no_cast, no_number, if_can_not, Runner, R, ◌>>=◌, answer, raise, stop, from, nullable, value_at,
  get_value, split, contains, parse_int,
}

-- `get` of a row, null if it has no such column.
unfoldable pub column : Text → Row → Option Cell
unfolding text_eq
column name [] = none
column name ((k, c) ∷ row) = if text_eq k name then c else column name row

abbrev pub is_string : Option DataType → Bool
is_string (some DataType.string) = true
is_string _ = false

abbrev pub is_table : Option DataType → Bool
is_table (some DataType.table) = true
is_table _ = false

-- `v.get(0)` on the value of a table.
unfoldable pub first_row : Value → R Row
first_row null = raise null_value
first_row (cell c) = raise no_cast
first_row (rows []) = raise no_index
first_row (rows (row ∷ _)) = answer row

-- The value of a parameter by its data type.
unfoldable pub typed_value : Bool → ℕ → List Text → R Value
unfolding first_row column
typed_value true a pieces = do
  v ← get_value a
  row ← first_row v
  name ← from no_index (get_elem? pieces 1)
  answer (nullable (column name row))
typed_value false a pieces = get_value a

-- The message of the exception has the second operand.
unfoldable pub refused : List Text → R Bool
refused pieces = do s ← from no_index (get_elem? pieces 2); raise if_can_not

abbrev pub is_null : Value → Bool
is_null null = true
is_null _ = false

module _ (lib : Library) (exe : Exe) where
  -- `toString`, an exception for null.
  unfoldable pub to_string : Value → Option Text
  to_string null = none
  to_string (cell (text s)) = some s
  to_string (cell (object n)) = some (lib.show (cell (object n)))
  to_string (rows rs) = some (lib.show (rows rs))

  -- `equals` of an object that is not null.
  unfoldable pub equals : Value → Value → Bool
  unfolding text_eq
  equals (cell (text s)) (cell (text t)) = text_eq s t
  equals (cell (text s)) _ = false
  equals v w = lib.same v w

  -- `exe.getParam`
  unfoldable pub get_param : Text → R ℕ
  unfolding find
  get_param name = from no_param (find name exe.params)

  abbrev seen_at : List Value → Option ℕ → Option Param
  seen_at values none = none
  seen_at values (some a) = some (record {
    is_string = is_string (get_elem? exe.store a);
    value = to_string (value_at values a);
  })

  -- The parameters as `paramChage` sees them.
  unfoldable pub seen : Runner → Text → Option Param
  unfolding to_string find value_at
  seen r name = seen_at r.values (find name exe.params)

  abbrev pub settle : Change → R Text
  settle (changed s) = answer s
  settle not_definition = raise no_param
  settle null_pointer = raise null_value
  settle no_end = stop

  unfoldable pub change : ℕ → Bool → Text → R Text
  unfolding seen param_change
  change rounds is_sql s r = settle (param_change rounds (seen r) is_sql s) r

  -- `getParamValue`
  unfoldable pub get_param_value : Text → R Value
  unfolding split contains get_param typed_value
  get_param_value s =
      if not (is_prefix (codes "@") s) && not (contains 46 s) then answer (cell (text s)) else do
        let pieces = split (codes ".") s
        name ← from no_index (get_elem? pieces 0)
        a ← get_param name
        typed_value (is_table (get_elem? exe.store a)) a pieces

  -- `getParamValue(split[i])`
  unfoldable pub operand : List Text → ℕ → R Value
  unfolding get_param_value
  operand pieces i = do s ← from no_index (get_elem? pieces i); get_param_value s

  -- `getParamValue(split[i]).toString()`
  unfoldable pub operand_text : List Text → ℕ → R Text
  unfolding operand to_string
  operand_text pieces i = do v ← operand pieces i; from null_value (to_string v)

  unfoldable pub operand_number : List Text → ℕ → R ℕ
  unfolding operand_text parse_int
  operand_number pieces i = do s ← operand_text pieces i; from no_number (parse_int s)

  -- The operators that `_if_Analyize` has.
  unfoldable pub is_equal : List Text → R Bool
  unfolding operand_text operand equals
  is_equal pieces = do
    s ← operand_text pieces 0
    w ← operand pieces 2
    answer (equals (cell (text s)) w)

  unfoldable pub is_greater : List Text → R Bool
  unfolding operand_number
  is_greater pieces = do m ← operand_number pieces 0; n ← operand_number pieces 2; answer (ltb n m)

  unfoldable pub is_different : List Text → R Bool
  unfolding operand equals
  is_different pieces = do
    v ← operand pieces 0
    w ← operand pieces 2
    if is_null v then raise null_value else answer (not (equals v w))

  -- The operators `<`, `>=` and `<=` are refused like those that it does not know.
  unfoldable pub compare : List Text → Text → R Bool
  unfolding is_equal is_greater is_different refused text_eq
  compare pieces operator =
      if text_eq (codes "==") operator
      then is_equal pieces
      else if text_eq (codes ">") operator
      then is_greater pieces
      else if text_eq (codes "!=") operator
      then is_different pieces
      else refused pieces

  -- `_if_Analyize`
  unfoldable pub if_analyize : Text → R Bool
  unfolding compare trim_split
  if_analyize condition = do
    let pieces = trim_split condition (codes " ")
    operator ← from no_index (get_elem? pieces 1)
    compare pieces operator
