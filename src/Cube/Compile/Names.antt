-- ===== src/Cube/Compile/Names.antt =====
-- The actions of a script, and Exe, which keeps the names; what the compiler asks and tells it.
use toyhoodle.Prelude.{
  ℕ, ◌+◌, Bool, true, false, ◌&&◌, leb, map, Option, none, some, List, [], ◌∷◌, ◌++◌, drop,
  get_elem?, length, if◌then◌else◌,
}
use toyhoodle.Cube.ParamChange.{Text, is_prefix}
use toyhoodle.Cube.Text.{codes, trim, text_eq, trim_split}

-- `Param.DataType`
pub data DataType : Type 0 where
  string table intgert long double : DataType

-- The subclasses of `Action`, where a parameter is the number of its object and a connection, which
-- may be null, that of its data source.
mutual
  pub data Action : Type 0 where
    if_ : Text → Actions → Actions → Action
    while : Text → Actions → Action
    query : Text → Option ℕ → Option ℕ → Action
    assignment : ℕ → Text → Action
    foreach : ℕ → List ℕ → Actions → Action

  pub data Actions : Type 0 where
    nil : Actions
    cons : Action → Actions → Actions

-- `store` holds the data type of every parameter that was made, `params` and `connections` are the
-- maps, the newest entry of a name first.
pub record Exe : Type 0 where
  pub store : List DataType
  pub params : List (Text × ℕ)
  pub connections : List (Text × ℕ)

-- The exceptions, without the number of the line.
pub data Failure : Type 0 where
  exp_errer not_endif not_endquery not_endwhile not_endforeach keyword_error : Failure
  not_datasource not_definition not_at not_type index_out_of_bounds no_connection : Failure

-- An answer and the names behind it, or an exception.
pub data Built (A : Type 0) : Type 0 where
  built : A → Exe → Built A
  wrong : Failure → Built A

abbrev pub E : Type 0 → Type 0
E A = Exe → Built A

infixl 5 ◌>>=◌
abbrev pub ◌>>=◌ : {A B : Type 0} → E A → (A → E B) → E B
◌>>=◌ m f x = elim (m x) [ built a x' ↦ f a x' | wrong e ↦ wrong e ]

abbrev pub answer : {A : Type 0} → A → E A
answer a x = built a x

abbrev pub throw : {A : Type 0} → Failure → E A
throw e x = wrong e

unfoldable pub find : Text → List (Text × ℕ) → Option ℕ
unfolding text_eq
find name [] = none
find name ((k, a) ∷ m) = if text_eq k name then some a else find name m

-- `exe.getParam(name)`
unfoldable pub get_param : Text → E ℕ
unfolding find
get_param name x = elim (find name x.params) [ none ↦ wrong not_definition | some a ↦ built a x ]

-- `exe.getParam(names)`
unfoldable pub get_params : List Text → E (List ℕ)
unfolding get_param
get_params [] = answer []
get_params (name ∷ names) = do a ← get_param name; rest ← get_params names; answer (a ∷ rest)

-- `toLowerCase`, on the letters of ASCII.
abbrev lower : ℕ → ℕ
lower c = if leb 65 c && leb c 90 then c + 32 else c

-- `Param.getParam(type)`, none where it throws.
unfoldable pub data_type : Text → Option DataType
unfolding text_eq
data_type type =
    let t = map lower type in
    if text_eq (codes "string") t
    then some string
    else if text_eq (codes "double") t
    then some double
    else if text_eq (codes "long") t
    then some long
    else if text_eq (codes "int") t
    then some intgert
    else if text_eq (codes "table") t
    then some table
    else none

-- A new object, which the name stands for from now on.
abbrev add_param : Text → DataType → Exe → Exe
add_param name type exe = record exe {
  store = exe.store ++ (type ∷ []);
  params = (name, length exe.store) ∷ exe.params;
}

-- `exe.putParam(name, type)`
unfoldable pub put_param : Text → Text → E (Unit {0})
put_param name type x = elim (data_type (trim type)) [
  | none ↦ wrong not_type
  | some t ↦ built tt (add_param (trim name) t x)
]

-- `exe.putDataBase(name, url, driver)`, with what JDBC makes of the address and the driver.
unfoldable pub put_data_base : (Text → Text → Option ℕ) → Text → Text → Text → E (Unit {0})
put_data_base connect name url driver x = elim (connect (trim url) (trim driver)) [
  | none ↦ wrong no_connection
  | some a ↦ built tt (record x { connections = (trim name, a) ∷ x.connections })
]

-- `exe.getConnection(name)`, null if there is none.
unfoldable pub get_connection : Text → E (Option ℕ)
unfolding find
get_connection name x = built (find name x.connections) x

-- `vs[i]`
unfoldable pub element : List Text → ℕ → E Text
element vs i x = elim (get_elem? vs i) [ none ↦ wrong index_out_of_bounds | some v ↦ built v x ]

-- The data source of a query.
unfoldable pub first_piece : List Text → E Text
first_piece [] = throw not_datasource
first_piece (source ∷ _) = answer source

-- The name behind AS becomes a table, and the query refers to its object.
unfoldable pub query_name : List Text → E (Option ℕ)
query_name (source ∷ name ∷ []) = do
  _ ← put_param name (codes "table")
  a ← get_param name
  answer (some a)
query_name _ = answer none

-- The connection of a query and its name.
unfoldable pub query_header : Text → E (Option ℕ × Option ℕ)
query_header line = do
  let pieces = trim_split (drop 5 line) (codes "AS")
  source ← first_piece pieces
  connection ← get_connection source
  name ← query_name pieces
  answer (connection, name)

-- The table and the parameters of FOREACH.
unfoldable pub foreach_header : Text → E (ℕ × List ℕ)
foreach_header line = do
  let pieces = trim_split (trim (drop 7 line)) (codes " ")
  name ← element pieces 0
  param ← get_param name
  names ← element pieces 1
  params ← get_params (trim_split names (codes ","))
  answer (param, params)

-- An assignment, of a line that starts with `@`.
unfoldable pub put_assignment : Text → E Action
put_assignment line = do
  let pieces = trim_split line (codes "=")
  name ← element pieces 0
  param ← get_param (trim name)
  value ← element pieces 1
  answer (assignment param (trim value))

-- `putParam`, behind its test.
unfoldable pub put_param_named : Bool → Text → E (Unit {0})
put_param_named false line = throw not_at
put_param_named true line = do
  let pieces = trim_split line (codes "TYPEAS")
  name ← element pieces 0
  type ← element pieces 1
  put_param name type

unfoldable pub put_param_line : Text → E (Unit {0})
unfolding put_param_named
put_param_line line = put_param_named (is_prefix (codes "@") (trim line)) line

-- `putDataSource`
unfoldable pub put_data_source : (Text → Text → Option ℕ) → Text → E (Unit {0})
put_data_source connect line = do
  let pieces = trim_split line (codes " ")
  name ← element pieces 0
  url ← element pieces 1
  driver ← element pieces 2
  put_data_base connect name url driver
