-- ===== src/Prelude/Predicates.antt =====
-- A predicate on every element of a list, by recursion: it computes to tuples.
use Prim.Native.Nat.{ℕ, zero, suc}
use mathlib.Core.Path.{◌≡◌, refl, subst}
use mathlib.Core.Option.{some}
use mathlib.Core.List.{List, [], ◌∷◌, ◌++◌}
use toyhoodle.Prelude.Lists.{get_elem?}

abbrev pub All {ℓ κ} : {A : Type ℓ} → (A → Type κ) → List A → Type κ
All P [] = Unit
All P (x ∷ xs) = P x × All P xs

pub All-append {ℓ κ} :
    {A : Type ℓ} (P : A → Type κ) (xs ys : List A) → All P xs → All P ys → All P (xs ++ ys)
All-append P [] ys hx hy = hy
All-append P (x ∷ xs) ys hx hy = (hx.0, All-append P xs ys hx.1 hy)

-- A relation between the elements of two lists of one length.
abbrev pub Pairwise {ℓ κ} : {A : Type ℓ} {B : Type κ} → (A → B → Type 0) → List A → List B → Type 0
Pairwise R [] [] = Unit
Pairwise R (x ∷ xs) (y ∷ ys) = R x y × Pairwise R xs ys
Pairwise R _ _ = ⊥

pub Pairwise-append {ℓ κ} :
    {A : Type ℓ} {B : Type κ} (R : A → B → Type 0) (xs : List A) (ys : List B) (us : List A)
    (vs : List B)
    → Pairwise R xs ys
    → Pairwise R us vs
    → Pairwise R (xs ++ us) (ys ++ vs)
Pairwise-append R [] [] us vs h k = k
Pairwise-append R [] (y ∷ ys) us vs h k = absurd h
Pairwise-append R (x ∷ xs) [] us vs h k = absurd h
Pairwise-append R (x ∷ xs) (y ∷ ys) us vs h k = (h.0, Pairwise-append R xs ys us vs h.1 k)

pub Pairwise-get_elem? {ℓ κ} :
    {A : Type ℓ} {B : Type κ} (R : A → B → Type 0) (xs : List A) (ys : List B) (i : ℕ) {x : A}
    → Pairwise R xs ys
    → get_elem? xs i ≡ some x
    → (y : B) × (get_elem? ys i ≡ some y) × R x y
Pairwise-get_elem? R [] [] i h e = cc
Pairwise-get_elem? R [] (y ∷ ys) i h e = absurd h
Pairwise-get_elem? R (x ∷ xs) [] i h e = absurd h
Pairwise-get_elem? R (x ∷ xs) (y ∷ ys) zero {x = z} h e =
    let q : x ≡ z = cc in (y, refl, subst (λ t. R t y) q h.0)
Pairwise-get_elem? R (x ∷ xs) (y ∷ ys) (suc i) h e = Pairwise-get_elem? R xs ys i h.1 e
