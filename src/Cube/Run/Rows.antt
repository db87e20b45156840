-- ===== src/Cube/Run/Rows.antt =====
-- What a row of a table gives to the parameters of FOREACH.
use toyhoodle.Prelude.{
  ℕ, zero, suc, ◌+◌, ◌≤◌, ◌<◌, ◌≡◌, refl, ◌∙◌, true, false, ltb, leb, Bool-cases, inl, inr, none,
  some, List, [], ◌∷◌, drop, get_elem?, length, arith, if◌then◌else◌,
}
use toyhoodle.Cube.Run.Values.{Row, Value, Runner, done, raised, no_index, nullable, set_at}
use toyhoodle.Cube.Run.{put_entries}

-- The cells of a row, one after the other, for the objects of a list.
unfoldable pub set_all : List ℕ → Row → List Value → List Value
set_all [] row values = values
set_all (a ∷ params) [] values = values
set_all (a ∷ params) ((name, c) ∷ row) values = set_all params row (set_at a (nullable c) values)

record Head (params : List ℕ) (i : ℕ) : Type 0 where
  number : ℕ
  found : get_elem? params i ≡ some number
  behind : drop i params ≡ number ∷ drop (suc i) params

drop_head : (params : List ℕ) (i : ℕ) → i < length params → Head params i
drop_head [] i h = absurd (omega arith)
drop_head (a ∷ params) zero h = record { number = a; found = refl; behind = refl }
drop_head (a ∷ params) (suc i) h =
    let rest = drop_head params i (omega arith) in
    record { number = rest.number; found = rest.found; behind = rest.behind }

drop_none : (params : List ℕ) (i : ℕ) → length params ≤ i → get_elem? params i ≡ none
drop_none [] i h = refl
drop_none (a ∷ params) zero h = absurd (omega arith)
drop_none (a ∷ params) (suc i) h = drop_none params i (omega arith)

set_none : (params : List ℕ) (values : List Value) → set_all params [] values ≡ values
unfolding set_all
set_none [] values = refl
set_none (a ∷ params) values = refl

put_entries_from :
    (params : List ℕ) (i : ℕ) (row : Row) (r : Runner)
    → i ≤ length params
    → put_entries params i row r ≡ (
        if leb (i + length row) (length params)
        then done tt (record r { values = set_all (drop i params) row r.values })
        else raised no_index)
unfolding put_entries set_all
put_entries_from params i [] r h =
    let fits : leb (i + 0) (length params) ≡ true = ground arith in
    rw (fits, set_none (drop i params) r.values) refl
put_entries_from params i ((name, c) ∷ row) r h = elim (Bool-cases (ltb i (length params))) [
  | inl inside ↦
      let head = drop_head params i (ground arith) in
      let before : ltb (length params) i ≡ false = ground arith in
      let rest =
        put_entries_from params (suc i) row
          (record r { values = set_at head.number (nullable c) r.values }) (ground arith) in
      let same : leb (suc i + length row) (length params)
          ≡ leb (i + suc (length row)) (length params) =
        ground arith in
      rw (before, head.found, head.behind) (rest ∙ rw same refl)
  | inr outside ↦
      let before : ltb (length params) i ≡ false = ground arith in
      let missing = drop_none params i (ground arith) in
      let over : leb (i + suc (length row)) (length params) ≡ false = ground arith in
      rw (before, missing, over) refl
]

-- The parameters take the cells of a row in their order, one each, where the row has at most as many
-- columns as there are parameters. A row with more columns raises an exception: the test in the loop
-- never ends it.
pub put_entries-set_all :
    (params : List ℕ) (row : Row) (r : Runner)
    → put_entries params 0 row r ≡ (
        if leb (length row) (length params)
        then done tt (record r { values = set_all params row r.values })
        else raised no_index)
put_entries-set_all params row r =
    let all : leb (0 + length row) (length params) ≡ leb (length row) (length params) =
      ground arith in
    put_entries_from params 0 row r (omega arith) ∙ rw all refl
