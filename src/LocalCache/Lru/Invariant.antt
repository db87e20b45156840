-- ===== src/LocalCache/Lru/Invariant.antt =====
-- What holds of an LRULinkedHashMap after any sequence of calls.
use Prim.Native.Nat.{max}
use toyhoodle.Prelude.{
  ℕ, suc, ◌-◌, ◌≤◌, ◌<◌, ◌≡◌, refl, inl, inr, List, [], ◌∷◌, arith, length, length-append,
  Option-cases,
}
use toyhoodle.LocalCache.Lru.{Lru, size, clear, set_capacity, after_insertion, get, put, remove}
use toyhoodle.LocalCache.Lru.Entries.{
  rest, lookup, remove_key, IsDistinct, lookup-remove_key_self, remove_key-IsDistinct,
  add-IsDistinct, rest-IsDistinct, length-remove_key, length-remove_key-le,
}

pub data Op {ℓ} (K V : Type ℓ) : Type ℓ where
  puts : K → V → Op K V
  gets : K → Op K V
  removes : K → Op K V
  clears : Op K V
  sets_capacity : ℕ → Op K V

module _ {ℓ} {K V : Type ℓ} (dec : Discrete K) where
  unfoldable pub step : Op K V → Lru K V → Lru K V
  step (puts k v) m = (put dec k v m).0
  step (gets k) m = (get dec k m).0
  step (removes k) m = (remove dec k m).0
  step clears m = clear m
  step (sets_capacity n) m = set_capacity n m

  unfoldable pub run : List (Op K V) → Lru K V → Lru K V
  run [] m = m
  run (op ∷ ops) m = run ops (step op m)

  -- The largest of `n` and the capacities that are set.
  unfoldable pub largest_capacity : ℕ → List (Op K V) → ℕ
  largest_capacity n [] = n
  largest_capacity n (sets_capacity c ∷ ops) = largest_capacity (max n c) ops
  largest_capacity n (_ ∷ ops) = largest_capacity n ops

  pub get-IsDistinct :
      (k : K) (m : Lru K V) → IsDistinct dec m.entries → IsDistinct dec (get dec k m).0.entries
  unfolding get
  get-IsDistinct k m d = elim (Option-cases (lookup dec k m.entries)) [
    | inl miss ↦ rw (miss, get) d
    | inr (v, hit) ↦
        rw (hit, get)
          (add-IsDistinct dec k v _ (remove_key-IsDistinct dec k _ d)
            (lookup-remove_key_self dec k _ d))
  ]

  after_insertion-IsDistinct :
      (m : Lru K V) → IsDistinct dec m.entries → IsDistinct dec (after_insertion m).entries
  unfolding after_insertion
  after_insertion-IsDistinct m d = ground (arith, rest-IsDistinct dec m.entries)

  pub put-IsDistinct :
      (k : K) (v : V) (m : Lru K V)
      → IsDistinct dec m.entries
      → IsDistinct dec (put dec k v m).0.entries
  unfolding put
  put-IsDistinct k v m d = elim (Option-cases (lookup dec k m.entries)) [
    | inl miss ↦ rw (miss, put) (after_insertion-IsDistinct _ (add-IsDistinct dec k v _ d miss))
    | inr (old, hit) ↦
        rw (hit, put)
          (add-IsDistinct dec k v _ (remove_key-IsDistinct dec k _ d)
            (lookup-remove_key_self dec k _ d))
  ]

  size-get : (k : K) (m : Lru K V) → size (get dec k m).0 ≡ size m
  unfolding get
  size-get k m = elim (Option-cases (lookup dec k m.entries)) [
    | inl miss ↦ rw (miss, get) refl
    | inr (v, hit) ↦
        rw (hit, get)
          (omega (
            arith,
            length-append (remove_key dec k m.entries) ((k, v) ∷ []),
            length-remove_key dec k m.entries v hit,
          ))
  ]

  length-rest : (l : List (K × V)) → length (rest l) ≡ length l - 1
  length-rest [] = omega arith
  length-rest (e ∷ l) = omega arith

  size-after_insertion-le :
      (m : Lru K V) (bound : ℕ)
      → m.max_capacity ≤ bound
      → size m ≤ suc bound
      → size (after_insertion m) ≤ bound
  unfolding after_insertion
  size-after_insertion-le m bound hc hs = ground (arith, length-rest m.entries)

  -- A call of `put` leaves at most `bound` entries, if the capacity and the size before are.
  size-put-le :
      (k : K) (v : V) (m : Lru K V) (bound : ℕ)
      → m.max_capacity ≤ bound
      → size m ≤ bound
      → size (put dec k v m).0 ≤ bound
  unfolding put after_insertion
  size-put-le k v m bound hc hs = elim (Option-cases (lookup dec k m.entries)) [
    | inl miss ↦
        rw (miss, put)
          (size-after_insertion-le _ bound hc
            (omega (arith, length-append m.entries ((k, v) ∷ []))))
    | inr (old, hit) ↦
        rw (hit, put)
          (omega (
            arith,
            length-append (remove_key dec k m.entries) ((k, v) ∷ []),
            length-remove_key dec k m.entries old hit,
          ))
  ]

  pub max_capacity-put :
      (k : K) (v : V) (m : Lru K V) → (put dec k v m).0.max_capacity ≡ m.max_capacity
  unfolding put after_insertion
  max_capacity-put k v m = ground arith

  pub max_capacity-get : (k : K) (m : Lru K V) → (get dec k m).0.max_capacity ≡ m.max_capacity
  unfolding get
  max_capacity-get k m = ground arith

  pub max_capacity-remove : (k : K) (m : Lru K V) → (remove dec k m).0.max_capacity ≡ m.max_capacity
  unfolding remove
  max_capacity-remove k m = refl

  le-largest_capacity : (n : ℕ) (ops : List (Op K V)) → n ≤ largest_capacity n ops
  unfolding largest_capacity
  le-largest_capacity n [] = omega arith
  le-largest_capacity n (sets_capacity c ∷ ops) = omega (arith, le-largest_capacity (max n c) ops)
  le-largest_capacity n (puts k v ∷ ops) = le-largest_capacity n ops
  le-largest_capacity n (gets k ∷ ops) = le-largest_capacity n ops
  le-largest_capacity n (removes k ∷ ops) = le-largest_capacity n ops
  le-largest_capacity n (clears ∷ ops) = le-largest_capacity n ops

  -- A map whose capacity and size are at most `n` never holds more entries than the largest of `n`
  -- and the capacities that are set later.
  pub run-size-le :
      (ops : List (Op K V)) (m : Lru K V) (n : ℕ)
      → m.max_capacity ≤ n
      → size m ≤ n
      → size (run ops m) ≤ largest_capacity n ops
  unfolding run step largest_capacity remove
  run-size-le [] m n hc hs = hs
  run-size-le (puts k v ∷ ops) m n hc hs =
      run-size-le ops (put dec k v m).0 n (omega (arith, max_capacity-put k v m))
        (size-put-le k v m n hc hs)
  run-size-le (gets k ∷ ops) m n hc hs =
      run-size-le ops (get dec k m).0 n (omega (arith, max_capacity-get k m))
        (omega (arith, size-get k m))
  run-size-le (removes k ∷ ops) m n hc hs =
      run-size-le ops (remove dec k m).0 n hc (omega (arith, length-remove_key-le dec k m.entries))
  run-size-le (clears ∷ ops) m n hc hs = run-size-le ops (clear m) n hc (omega arith)
  run-size-le (sets_capacity c ∷ ops) m n hc hs =
      run-size-le ops (set_capacity c m) (max n c) (omega arith) (omega arith)

  size-after_insertion_over :
      (m : Lru K V) (n : ℕ) → size m ≡ suc n → m.max_capacity < n → size (after_insertion m) ≡ n
  unfolding after_insertion
  size-after_insertion_over m n e h = ground (arith, length-rest m.entries)

  -- A `put` on a map that holds more entries than its capacity leaves the number of entries as it is:
  -- a map whose capacity was lowered below its size does not shrink.
  pub size-put_over :
      (k : K) (v : V) (m : Lru K V) → m.max_capacity < size m → size (put dec k v m).0 ≡ size m
  unfolding put
  size-put_over k v m h = elim (Option-cases (lookup dec k m.entries)) [
    | inl miss ↦
        rw (miss, put)
          (size-after_insertion_over _ (size m)
            (omega (arith, length-append m.entries ((k, v) ∷ []))) h)
    | inr (old, hit) ↦
        rw (hit, put)
          (omega (
            arith,
            length-append (remove_key dec k m.entries) ((k, v) ∷ []),
            length-remove_key dec k m.entries old hit,
          ))
  ]
