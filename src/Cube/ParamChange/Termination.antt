-- ===== src/Cube/ParamChange/Termination.antt =====
-- When the loop of `paramChage` ends, and when it does not.
use toyhoodle.Prelude.{
  ℕ, zero, suc, ◌<◌, ◌≡◌, refl, inl, inr, Bool, Option, none, some, [], ◌∷◌, ◌++◌, drop, arith,
  Option-cases,
}
use toyhoodle.Cube.ParamChange.{
  Text, at, quote, Param, Change, changed, not_definition, null_pointer, no_end, index_of,
  param_name, replace, replacement, param_change,
}
use toyhoodle.Cube.ParamChange.Names.{count, count-append, index_of-none, count-replace_from-lt}

-- No value of a parameter has an `@` in it.
abbrev pub HasPlainValues : (Text → Option Param) → Type 0
HasPlainValues params =
    (name : Text) (p : Param) (v : Text)
    → params name ≡ some p
    → p.value ≡ some v
    → index_of at v ≡ none

-- The call has ended, and no name is left in a text that it returned.
abbrev pub IsSettled : Change → Type 0
IsSettled (changed s) = index_of at s ≡ none
IsSettled not_definition = Unit
IsSettled null_pointer = Unit
IsSettled no_end = ⊥

quoted : (v : Text) → count at v ≡ 0 → count at (quote ∷ (v ++ quote ∷ [])) ≡ 0
unfolding count
quoted v h = ground (arith, count-append at v (quote ∷ []))

count-replacement :
    (params : Text → Option Param) (is_sql : Bool) (name : Text) (p : Param) (v : Text)
    → HasPlainValues params
    → params name ≡ some p
    → replacement is_sql p ≡ some v
    → count at v ≡ 0
unfolding replacement count
count-replacement params is_sql name p v plain known h = elim (Option-cases p.value) [
  | inl is_null ↦ ground (arith, is_null, quoted (110 ∷ 117 ∷ 108 ∷ 108 ∷ []) refl)
  | inr (w, has) ↦
      let none_left = index_of-none at w (plain name p w known has) in
      ground (arith, has, none_left, quoted w none_left)
]

-- If no value of a parameter has an `@` in it, the replacement ends within one round more than the text
-- has `@`s: with a text that has none, or by an exception for a name that is not defined or a null.
pub param_change-IsSettled :
    (rounds : ℕ) (params : Text → Option Param) (is_sql : Bool) (s : Text)
    → HasPlainValues params
    → count at s < rounds
    → IsSettled (param_change rounds params is_sql s)
unfolding param_change replace
param_change-IsSettled zero params is_sql s plain enough = absurd (omega arith)
param_change-IsSettled (suc n) params is_sql s plain enough = elim (Option-cases (index_of at s)) [
  | inl miss ↦ rw (param_change, miss) miss
  | inr (i, hit) ↦
      let name = param_name (drop i s) in
      elim (Option-cases (params name)) [
        | inl unknown ↦ rw (param_change, hit, unknown) tt
        | inr (p, known) ↦ elim (Option-cases (replacement is_sql p)) [
          | inl is_null ↦ rw (param_change, hit, known, is_null) tt
          | inr (v, given) ↦
              let few =
                count-replace_from-lt name v s i hit refl
                  (count-replacement params is_sql name p v plain known given) in
              rw (param_change, hit, known, given)
                (param_change-IsSettled n params is_sql (replace name v s) plain
                  (omega (arith, few, enough)))
        ]
      ]
]

-- If the value of the first name in a text brings the text back, as one that is its own name does, the
-- replacement never ends, whatever the number of rounds.
pub param_change-no_end :
    (rounds : ℕ) (params : Text → Option Param) (is_sql : Bool) (s : Text) (i : ℕ) (p : Param)
    (v : Text)
    → index_of at s ≡ some i
    → params (param_name (drop i s)) ≡ some p
    → replacement is_sql p ≡ some v
    → replace (param_name (drop i s)) v s ≡ s
    → param_change rounds params is_sql s ≡ no_end
unfolding param_change
param_change-no_end zero params is_sql s i p v hit known given same = refl
param_change-no_end (suc n) params is_sql s i p v hit known given same =
    rw (param_change, hit, known, given, same)
      (param_change-no_end n params is_sql s i p v hit known given same)
