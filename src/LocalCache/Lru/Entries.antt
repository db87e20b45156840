-- ===== src/LocalCache/Lru/Entries.antt =====
-- Lists of entries with distinct keys: look up, remove, and add at the end.
use toyhoodle.Prelude.{
  suc, ◌≤◌, ◌≡◌, refl, ◌≢◌, ite, Option, none, some, List, [], ◌∷◌, ◌++◌, arith, length,
}

module _ {ℓ} {K V : Type ℓ} where
  -- All entries but the first.
  abbrev pub rest : List (K × V) → List (K × V)
  rest [] = []
  rest (_ ∷ l) = l

module _ {ℓ} {K V : Type ℓ} (dec : Discrete K) where
  unfoldable pub lookup : K → List (K × V) → Option V
  lookup k [] = none
  lookup k (e ∷ l) = ite (dec e.0 k) (some e.1) (lookup k l)

  unfoldable pub remove_key : K → List (K × V) → List (K × V)
  remove_key k [] = []
  remove_key k (e ∷ l) = ite (dec e.0 k) l (e ∷ remove_key k l)

  -- No key stands twice.
  abbrev pub IsDistinct : List (K × V) → Type ℓ
  IsDistinct [] = Unit
  IsDistinct (e ∷ l) = (lookup e.0 l ≡ none) × IsDistinct l

  pub lookup-append :
      (k : K) (l r : List (K × V))
      → lookup k (l ++ r) ≡ elim (lookup k l) [ none ↦ lookup k r | some v ↦ some v ]
  unfolding lookup
  lookup-append k [] r = refl
  lookup-append k (e ∷ l) r = ground (arith, lookup-append k l r)

  pub lookup-remove_key_ne :
      (j k : K) (l : List (K × V)) → j ≢ k → lookup j (remove_key k l) ≡ lookup j l
  unfolding lookup remove_key
  lookup-remove_key_ne j k [] h = refl
  lookup-remove_key_ne j k (e ∷ l) h = ground (arith, lookup-remove_key_ne j k l)

  pub lookup-remove_key_self :
      (k : K) (l : List (K × V)) → IsDistinct l → lookup k (remove_key k l) ≡ none
  unfolding lookup remove_key
  lookup-remove_key_self k [] d = refl
  lookup-remove_key_self k (e ∷ l) d = ground (arith, lookup-remove_key_self k l)

  lookup-remove_key-none :
      (j k : K) (l : List (K × V)) → lookup j l ≡ none → lookup j (remove_key k l) ≡ none
  unfolding lookup remove_key
  lookup-remove_key-none j k [] h = refl
  lookup-remove_key-none j k (e ∷ l) h = ground (arith, lookup-remove_key-none j k l)

  pub remove_key-IsDistinct :
      (k : K) (l : List (K × V)) → IsDistinct l → IsDistinct (remove_key k l)
  unfolding lookup remove_key
  remove_key-IsDistinct k [] d = tt
  remove_key-IsDistinct k (e ∷ l) d =
      ground (arith, remove_key-IsDistinct k l, lookup-remove_key-none e.0 k l)

  pub add-IsDistinct :
      (k : K) (v : V) (l : List (K × V))
      → IsDistinct l
      → lookup k l ≡ none
      → IsDistinct (l ++ (k, v) ∷ [])
  unfolding lookup
  add-IsDistinct k v [] d h = (refl, tt)
  add-IsDistinct k v (e ∷ l) d h =
      ground (arith, add-IsDistinct k v l d.1, lookup-append e.0 l ((k, v) ∷ []))

  pub rest-IsDistinct : (l : List (K × V)) → IsDistinct l → IsDistinct (rest l)
  rest-IsDistinct [] d = tt
  rest-IsDistinct (e ∷ l) d = d.1

  pub length-remove_key :
      (k : K) (l : List (K × V)) (v : V)
      → lookup k l ≡ some v
      → suc (length (remove_key k l)) ≡ length l
  unfolding lookup remove_key
  length-remove_key k [] v h = cc
  length-remove_key k (e ∷ l) v h = ground (arith, length-remove_key k l v)

  pub length-remove_key-le : (k : K) (l : List (K × V)) → length (remove_key k l) ≤ length l
  unfolding remove_key
  length-remove_key-le k [] = omega arith
  length-remove_key-le k (e ∷ l) = ground (arith, length-remove_key-le k l)
