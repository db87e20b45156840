-- ===== src/Cube/ParamChange/Names.antt =====
-- The name of a parameter in a text, and what replacing it does to the number of the names.
use toyhoodle.Prelude.{
  ℕ, zero, suc, ◌+◌, ◌-◌, ◌<◌, ◌≤◌, ◌≡◌, refl, ◌∙◌, ap, inl, inr, true, false, Option, none, some,
  [], ◌∷◌, ◌++◌, ◌==◌, length, take, drop, if◌then◌else◌, arith, Option-cases,
}
use toyhoodle.Cube.ParamChange.{
  Text, at, space, comma, close, index_of, first_of, get_end_index, param_name, is_prefix,
  replace_from,
}

-- How often a character stands in a text.
unfoldable pub count : ℕ → Text → ℕ
count c [] = 0
count c (x ∷ s) = if x == c then suc (count c s) else count c s

pub count-append : (c : ℕ) (s t : Text) → count c (s ++ t) ≡ count c s + count c t
unfolding count
count-append c [] t = omega arith
count-append c (x ∷ s) t = ground (arith, count-append c s t)

count-drop-le : (c n : ℕ) (s : Text) → count c (drop n s) ≤ count c s
unfolding count
count-drop-le c zero s = omega arith
count-drop-le c (suc n) [] = omega arith
count-drop-le c (suc n) (x ∷ s) = ground (arith, count-drop-le c n s)

pub index_of-none : (c : ℕ) (s : Text) → index_of c s ≡ none → count c s ≡ 0
unfolding index_of count
index_of-none c [] h = refl
index_of-none c (x ∷ s) h = ground (arith, index_of-none c s)

-- A value without names does not bring any: what is left comes from the text behind the skipped part.
count-replace_from-le :
    (skip c : ℕ) (t v s : Text)
    → count c v ≡ 0
    → count c (replace_from skip t v s) ≤ count c (drop skip s)
unfolding count replace_from
count-replace_from-le zero c t v [] h = omega arith
count-replace_from-le (suc k) c t v [] h = omega arith
count-replace_from-le (suc k) c t v (x ∷ s) h = count-replace_from-le k c t v s h
count-replace_from-le zero c t v (x ∷ s) h = ground (
  arith,
  count-replace_from-le (length t - 1) c t v s h,
  count-replace_from-le 0 c t v s h,
  count-drop-le c (length t - 1) s,
  count-append c v (replace_from (length t - 1) t v s),
)

is_prefix-take : (n : ℕ) (s : Text) → is_prefix (take n s) s ≡ true
unfolding is_prefix
is_prefix-take zero s = refl
is_prefix-take (suc n) [] = refl
is_prefix-take (suc n) (x ∷ s) = ground (arith, is_prefix-take n s)

is_prefix_refl : (s : Text) → is_prefix s s ≡ true
unfolding is_prefix
is_prefix_refl [] = refl
is_prefix_refl (x ∷ s) = ground (arith, is_prefix_refl s)

is_prefix-param_name : (s : Text) → is_prefix (param_name s) s ≡ true
unfolding param_name
is_prefix-param_name s = elim (Option-cases (get_end_index s)) [
  | inl miss ↦ rw (param_name, miss) (is_prefix_refl s)
  | inr (n, hit) ↦ rw (param_name, hit) (is_prefix-take n s)
]

abbrev IsLater : Option ℕ → Type 0
IsLater none = Unit
IsLater (some n) = 0 < n

first_of-IsLater : (i j : Option ℕ) → IsLater i → IsLater j → IsLater (first_of i j)
unfolding first_of
first_of-IsLater none j hi hj = hj
first_of-IsLater (some i) none hi hj = hi
first_of-IsLater (some i) (some j) hi hj = omega (arith, hi, hj)

index_of-IsLater : (c x : ℕ) (s : Text) → (x == c) ≡ false → IsLater (index_of c (x ∷ s))
unfolding index_of
index_of-IsLater c x s h = elim (Option-cases (index_of c s)) [
  | inl miss ↦ rw (index_of, h, miss) tt
  | inr (i, hit) ↦ rw (index_of, h, hit) (omega arith)
]

get_end_index-IsLater : (s : Text) → IsLater (get_end_index (at ∷ s))
unfolding get_end_index
get_end_index-IsLater s =
    first_of-IsLater (first_of (index_of space (at ∷ s)) (index_of comma (at ∷ s)))
      (index_of close (at ∷ s))
      (first_of-IsLater (index_of space (at ∷ s)) (index_of comma (at ∷ s))
        (index_of-IsLater space at s refl) (index_of-IsLater comma at s refl))
      (index_of-IsLater close at s refl)

-- The name begins with its `@`.
pub param_name-at : (s : Text) → (t : Text) × (param_name (at ∷ s) ≡ at ∷ t)
unfolding param_name
param_name-at s = begin (get_end_index (at ∷ s)) refl (get_end_index-IsLater s)
  where
    begin :
        (n : Option ℕ)
        → get_end_index (at ∷ s) ≡ n
        → IsLater n
        → (t : Text) × (param_name (at ∷ s) ≡ at ∷ t)
    begin none e h = (s, ground (arith, e))
    begin (some zero) e h = absurd (omega (arith, h))
    begin (some (suc n)) e h = (take n s, ground (arith, e))

index_of_nil : (c i : ℕ) → index_of c [] ≡ some i → ⊥
unfolding index_of
index_of_nil c i h = cc

index_of_zero : (c x : ℕ) (s : Text) → index_of c (x ∷ s) ≡ some 0 → x ≡ c
unfolding index_of
index_of_zero c x s h = ground arith

index_of-suc :
    (c x i : ℕ) (s : Text)
    → index_of c (x ∷ s) ≡ some (suc i)
    → ((x == c) ≡ false) × (index_of c s ≡ some i)
unfolding index_of
index_of-suc c x i s h = ground arith

pub drop-index_of :
    (c : ℕ) (s : Text) (i : ℕ) → index_of c s ≡ some i → (t : Text) × (drop i s ≡ c ∷ t)
unfolding index_of
drop-index_of c [] i h = cc
drop-index_of c (x ∷ s) zero h = (s, ap (λ y. y ∷ s) (index_of_zero c x s h))
drop-index_of c (x ∷ s) (suc i) h = drop-index_of c s i (index_of-suc c x i s h).1

is_prefix_other :
    (name s : Text) (x : ℕ) (t : Text)
    → name ≡ at ∷ t
    → (x == at) ≡ false
    → is_prefix name (x ∷ s) ≡ false
unfolding is_prefix
is_prefix_other [] s x t e h = cc
is_prefix_other (c ∷ name) s x t e h = ground arith

pub count-replace_from-lt :
    (name v s : Text) (i : ℕ)
    → index_of at s ≡ some i
    → name ≡ param_name (drop i s)
    → count at v ≡ 0
    → count at (replace_from 0 name v s) < count at s
unfolding count replace_from
count-replace_from-lt name v [] i h e plain = absurd (index_of_nil at i h)
count-replace_from-lt name v (x ∷ s) zero h e plain =
    let found : is_prefix name (x ∷ s) ≡ true = rw e (is_prefix-param_name (x ∷ s)) in
    ground (
      arith,
      found,
      index_of_zero at x s h,
      count-append at v (replace_from (length name - 1) name v s),
      count-replace_from-le (length name - 1) at name v s plain,
      count-drop-le at (length name - 1) s,
    )
count-replace_from-lt name v (x ∷ s) (suc i) h e plain =
    let (other, rest) = index_of-suc at x i s h in
    let (t, f) = drop-index_of at s i rest in
    let (n, g) = param_name-at t in
    let missed = is_prefix_other name s x n (e ∙ ap param_name f ∙ g) other in
    ground (arith, missed, other, count-replace_from-lt name v s i rest e plain)
