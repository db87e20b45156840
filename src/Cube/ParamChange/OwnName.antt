-- ===== src/Cube/ParamChange/OwnName.antt =====
-- The loop of `paramChage` on a name whose value is that name.
use toyhoodle.Prelude.{
  ℕ, zero, suc, ◌-◌, ◌≡◌, refl, ◌∙◌, ap, inl, inr, true, Bool, Option, some, [], ◌∷◌, ◌++◌, length,
  drop, arith, Bool-cases,
}
use toyhoodle.Cube.ParamChange.{
  Text, at, Param, no_end, index_of, param_name, is_prefix, replace_from, replace, replacement,
  param_change,
}
use toyhoodle.Cube.ParamChange.Names.{param_name-at, drop-index_of}
use toyhoodle.Cube.ParamChange.Termination.{param_change-no_end}

is_prefix-drop : (t s : Text) → is_prefix t s ≡ true → t ++ drop (length t) s ≡ s
unfolding is_prefix
is_prefix-drop [] s h = refl
is_prefix-drop (c ∷ t) [] h = cc
is_prefix-drop (c ∷ t) (x ∷ s) h = ground (arith, is_prefix-drop t s)

-- A text that is not empty, replaced by itself, leaves every text as it is behind the skipped part.
replace_from-itself : (skip c : ℕ) (t s : Text) → replace_from skip (c ∷ t) (c ∷ t) s ≡ drop skip s
unfolding replace_from
replace_from-itself zero c t [] = refl
replace_from-itself (suc skip) c t [] = refl
replace_from-itself (suc skip) c t (x ∷ s) = replace_from-itself skip c t s
replace_from-itself zero c t (x ∷ s) = elim (Bool-cases (is_prefix (c ∷ t) (x ∷ s))) [
  | inl hit ↦
      let q : length (c ∷ t) - 1 ≡ length t = omega arith in
      rw (replace_from, hit, q)
        (ap (λ l. (c ∷ t) ++ l) (replace_from-itself (length t) c t s)
          ∙ is_prefix-drop (c ∷ t) (x ∷ s) hit)
  | inr miss ↦ rw (replace_from, miss) (ap (λ l. x ∷ l) (replace_from-itself 0 c t s))
]

-- The first name of a text, put in its own place wherever it stands, changes nothing.
replace-own_name :
    (s : Text) (i : ℕ)
    → index_of at s ≡ some i
    → replace (param_name (drop i s)) (param_name (drop i s)) s ≡ s
unfolding replace
replace-own_name s i hit =
    let (rest, found) = drop-index_of at s i hit in
    let (t, name) = param_name-at rest in
    rw (ap param_name found ∙ name) (replace_from-itself 0 at t s)

-- If the first name of a text is that of a parameter that is put in as this name again, quotes
-- included, the call never ends, whatever the number of rounds and the rest of the text.
pub param_change-own_name :
    (rounds : ℕ) (params : Text → Option Param) (is_sql : Bool) (s : Text) (i : ℕ) (p : Param)
    → index_of at s ≡ some i
    → params (param_name (drop i s)) ≡ some p
    → replacement is_sql p ≡ some (param_name (drop i s))
    → param_change rounds params is_sql s ≡ no_end
param_change-own_name rounds params is_sql s i p hit known given =
    param_change-no_end rounds params is_sql s i p (param_name (drop i s)) hit known given
      (replace-own_name s i hit)
