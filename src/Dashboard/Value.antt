-- ===== src/Dashboard/Value.antt =====
-- JavaScript values, as the scripts of monitorView/src/main/resources/static/webapp/assets/js write
-- them in object and array literals, and the reads that the chart libraries make of them.
use toyhoodle.Prelude.{
  ℕ, String, str_eq, Bool, true, false, Option, none, some, List, [], ◌∷◌, ◌&&◌, map, if◌then◌else◌,
}

-- `decimal u t` is the literal `u.t`, with one digit behind the point.
mutual
  pub data Value : Type 0 where
    null : Value
    bool : Bool → Value
    num : ℕ → Value
    decimal : ℕ → ℕ → Value
    str : String → Value
    arr : Values → Value
    obj : Fields → Value

  pub data Values : Type 0 where
    nil : Values
    cons : Value → Values → Values

  pub data Fields : Type 0 where
    end : Fields
    field : String → Value → Fields → Fields

abbrev to_values : List Value → Values
to_values [] = nil
to_values (v ∷ vs) = cons v (to_values vs)

abbrev to_fields : List (String × Value) → Fields
to_fields [] = end
to_fields ((k, v) ∷ fs) = field k v (to_fields fs)

-- `[v, …]`
abbrev pub array : List Value → Value
array vs = arr (to_values vs)

-- `{k: v, …}`
abbrev pub object : List (String × Value) → Value
object fs = obj (to_fields fs)

abbrev pub strs : List String → Value
strs ss = array (map str ss)

abbrev pub nums : List ℕ → Value
nums ns = array (map num ns)

abbrev pub find_field : String → Fields → Option Value
find_field k end = none
find_field k (field j v fs) = if str_eq j k then some v else find_field k fs

-- `v[k]`, `none` for `undefined`.
abbrev pub get : String → Value → Option Value
get k (obj fs) = find_field k fs
get k _ = none

abbrev to_list : Values → List Value
to_list nil = []
to_list (cons v vs) = v ∷ to_list vs

-- The elements of an array, none for any other value.
abbrev pub elements : Option Value → List Value
elements (some (arr vs)) = to_list vs
elements _ = []

-- The texts of an array of texts, as `ykeys` and `labels` are.
abbrev pub texts : List Value → List String
texts [] = []
texts (str s ∷ vs) = s ∷ texts vs
texts (_ ∷ vs) = texts vs

abbrev pub text : Option Value → Option String
text (some (str s)) = some s
text _ = none

abbrev pub all {ℓ} : {A : Type ℓ} → (A → Bool) → List A → Bool
all p [] = true
all p (x ∷ xs) = p x && all p xs

abbrev pub has : Value → String → Bool
has v k = elim (get k v) [ none ↦ false | some _ ↦ true ]
