-- ===== src/LocalCache/Lru/Recent.antt =====
-- The promise of the LRU order: what was used recently is not dropped.
use toyhoodle.Prelude.{
  ℕ, suc, ◌+◌, ◌≤◌, ◌<◌, ◌≡◌, refl, ◌≢◌, ◌∙◌, ap, sym, Bool-cases, ltb→lt, inl, inr, Option, none,
  some, List, [], ◌∷◌, ◌++◌, arith, ltb, length, length-append, Option-cases, All,
}
use toyhoodle.LocalCache.Lru.{Lru, size, after_insertion, get, put, remove}
use toyhoodle.LocalCache.Lru.Entries.{
  lookup-remove_key_ne, rest, lookup, remove_key, IsDistinct, length-remove_key-le,
  remove_key-IsDistinct, lookup-remove_key_self,
}
use toyhoodle.LocalCache.Lru.Invariant.{
  Op, puts, gets, removes, clears, sets_capacity, step, run, put-IsDistinct, get-IsDistinct,
  max_capacity-put, max_capacity-remove, max_capacity-get,
}
use toyhoodle.LocalCache.Lru.Reads.{
  eldest, eldest_added, victim, lookup-put_self, lookup-put_ne, lookup-get,
}

module _ {ℓ} {K V : Type ℓ} (dec : Discrete K) (k : K) where
  -- How many entries were used after the entry of `k`.
  younger : List (K × V) → ℕ
  younger [] = 0
  younger (e ∷ l) = elim (dec e.0 k) [ yes _ ↦ length l | no _ ↦ younger l ]

  younger_added :
      (e : K × V) (l : List (K × V)) (v : V)
      → lookup dec k l ≡ some v
      → younger (l ++ e ∷ []) ≡ suc (younger l)
  unfolding younger lookup
  younger_added e [] v h = cc
  younger_added e (x ∷ l) v h = ground (arith, younger_added e l v, length-append l (e ∷ []))

  younger-remove_key-le :
      (j : K) (l : List (K × V)) → j ≢ k → younger (remove_key dec j l) ≤ younger l
  unfolding younger remove_key
  younger-remove_key-le j [] h = omega arith
  younger-remove_key-le j (x ∷ l) h =
      ground (arith, younger-remove_key-le j l h, length-remove_key-le dec j l)

  younger-rest : (l : List (K × V)) → eldest l ≢ some k → younger (rest l) ≡ younger l
  unfolding younger
  younger-rest [] h = refl
  younger-rest (e ∷ l) h = ground arith

  younger-eldest : (l : List (K × V)) → eldest l ≡ some k → suc (younger l) ≡ length l
  unfolding younger
  younger-eldest [] h = cc
  younger-eldest (e ∷ l) h = ground arith

  younger_added_self :
      (v : V) (l : List (K × V)) → lookup dec k l ≡ none → younger (l ++ (k, v) ∷ []) ≡ 0
  unfolding younger lookup
  younger_added_self v [] h = ground arith
  younger_added_self v (e ∷ l) h = ground (arith, younger_added_self v l)

  younger-after_insertion-le :
      (m : Lru K V)
      → (m.max_capacity < size m → eldest m.entries ≢ some k)
      → younger (after_insertion m).entries ≤ younger m.entries
  unfolding after_insertion
  younger-after_insertion-le m h = elim (Bool-cases (ltb m.max_capacity (size m))) [
    | inl over ↦ rw over (omega (arith, younger-rest m.entries (h (ltb→lt _ _ over))))
    | inr fits ↦ rw fits (omega arith)
  ]

  -- What a call does to another key: one more entry may be younger than that of `k`.
  record Stays (v : V) (n : ℕ) (m : Lru K V) : Type ℓ where
    distinct : IsDistinct dec m.entries
    found : lookup dec k m.entries ≡ some v
    recent : younger m.entries ≤ n

  eldest_added_ne :
      (e : K × V) (l : List (K × V)) (v : V)
      → lookup dec k l ≡ some v
      → eldest l ≢ some k
      → eldest (l ++ e ∷ []) ≢ some k
  unfolding lookup
  eldest_added_ne e [] v h ne = cc
  eldest_added_ne e (x ∷ l) v h ne = ne

  module _ (j : K) (ne : j ≢ k) (v : V) (m : Lru K V) {n : ℕ} where
    recent_moved :
        (w : V) → Stays v n m → younger (remove_key dec j m.entries ++ (j, w) ∷ []) ≤ suc n
    recent_moved w s = omega (
      arith,
      younger_added (j, w) (remove_key dec j m.entries) v
          (lookup-remove_key_ne dec k j m.entries (λ e. ne (sym e)) ∙ s.found),
      younger-remove_key-le j m.entries ne,
      s.recent,
    )

    get-Stays : Stays v n m → Stays v (suc n) (get dec j m).0
    unfolding get
    get-Stays s = record {
      distinct = get-IsDistinct dec j m s.distinct;
      found = (lookup-get dec k j m s.distinct).0 ∙ s.found;
      recent = elim (Option-cases (lookup dec j m.entries)) [
        | inl miss ↦ rw (miss, get) (omega (arith, s.recent))
        | inr (w, hit) ↦ rw (hit, get) (recent_moved w s)
      ];
    }

    -- The entry that is dropped to make room is not that of `k`.
    eldest_added-ne :
        (w : V)
        → suc n < m.max_capacity
        → Stays v n m
        → m.max_capacity < suc (size m)
        → eldest (m.entries ++ (j, w) ∷ []) ≢ some k
    eldest_added-ne w h s over =
        eldest_added_ne (j, w) m.entries v s.found
          λ e. absurd (omega (arith, younger-eldest m.entries e, s.recent))

    recent_added :
        (w : V)
        → suc n < m.max_capacity
        → Stays v n m
        → younger (after_insertion (record m { entries = m.entries ++ (j, w) ∷ [] })).entries
          ≤ suc n
    recent_added w h s = omega (
      arith,
      younger-after_insertion-le (record m { entries = m.entries ++ (j, w) ∷ [] })
          (λ over. eldest_added-ne w h s (omega (arith, length-append m.entries ((j, w) ∷ [])))),
      younger_added (j, w) m.entries v s.found,
      s.recent,
    )

    victim-ne : (w : V) → suc n < m.max_capacity → Stays v n m → victim dec j w m ≢ some k
    unfolding victim
    victim-ne w h s = λ e. ground (arith, eldest_added-ne w h s)

    put-Stays : (w : V) → suc n < m.max_capacity → Stays v n m → Stays v (suc n) (put dec j w m).0
    unfolding put
    put-Stays w h s = record {
      distinct = put-IsDistinct dec j w m s.distinct;
      found = lookup-put_ne dec k j w m (λ e. ne (sym e)) (victim-ne w h s) ∙ s.found;
      recent = elim (Option-cases (lookup dec j m.entries)) [
        | inl miss ↦ rw (miss, put) (recent_added w h s)
        | inr (old, hit) ↦ rw (hit, put) (recent_moved w s)
      ];
    }

    remove-Stays : Stays v n m → Stays v (suc n) (remove dec j m).0
    unfolding remove
    remove-Stays s = record {
      distinct = remove_key-IsDistinct dec j m.entries s.distinct;
      found = lookup-remove_key_ne dec k j m.entries (λ e. ne (sym e)) ∙ s.found;
      recent = omega (arith, younger-remove_key-le j m.entries ne, s.recent);
    }

-- The key of a `put`, a `get` or a `remove`.
abbrev pub key_of {ℓ} : {K V : Type ℓ} → Op K V → Option K
key_of (puts j _) = some j
key_of (gets j) = some j
key_of (removes j) = some j
key_of clears = none
key_of (sets_capacity _) = none

-- A call of `put`, `get` or `remove` for another key.
abbrev pub IsOther {ℓ} : {K V : Type ℓ} → K → Op K V → Type ℓ
IsOther k op = (key_of op ≢ none) × (key_of op ≢ some k)

module _ {ℓ} {K V : Type ℓ} (dec : Discrete K) (k : K) where
  step-Stays :
      (op : Op K V) (v : V) (m : Lru K V) (n : ℕ)
      → IsOther k op
      → suc n < m.max_capacity
      → Stays dec k v n m
      → Stays dec k v (suc n) (step dec op m) × ((step dec op m).max_capacity ≡ m.max_capacity)
  unfolding step
  step-Stays (puts j w) v m n o h s =
      (put-Stays dec k j (λ q. o.1 (ap some q)) v m w h s, max_capacity-put dec j w m)
  step-Stays (gets j) v m n o h s =
      (get-Stays dec k j (λ q. o.1 (ap some q)) v m s, max_capacity-get dec j m)
  step-Stays (removes j) v m n o h s =
      (remove-Stays dec k j (λ q. o.1 (ap some q)) v m s, max_capacity-remove dec j m)
  step-Stays clears v m n o h s = absurd (o.0 refl)
  step-Stays (sets_capacity c) v m n o h s = absurd (o.0 refl)

  younger-put-le :
      (v : V) (m : Lru K V)
      → 0 < m.max_capacity
      → IsDistinct dec m.entries
      → younger dec k (put dec k v m).0.entries ≤ 0
  unfolding put
  younger-put-le v m room d = elim (Option-cases (lookup dec k m.entries)) [
    | inl miss ↦
        rw (miss, put)
          (omega (
            arith,
            younger-after_insertion-le dec k (record m { entries = m.entries ++ (k, v) ∷ [] })
                (λ over.
                  eldest_added dec k v m.entries miss
                    (omega (arith, length-append m.entries ((k, v) ∷ [])))),
            younger_added_self dec k v m.entries miss,
          ))
    | inr (old, hit) ↦
        rw (hit, put)
          (omega (
            arith,
            younger_added_self dec k v (remove_key dec k m.entries)
                (lookup-remove_key_self dec k m.entries d),
          ))
  ]

  run-Stays :
      (ops : List (Op K V)) (v : V) (m : Lru K V) (n : ℕ)
      → All (IsOther k) ops
      → n + length ops < m.max_capacity
      → Stays dec k v n m
      → lookup dec k (run dec ops m).entries ≡ some v
  unfolding run
  run-Stays [] v m n o h s = s.found
  run-Stays (op ∷ ops) v m n o h s =
      let (s', cap) = step-Stays op v m n o.0 (omega arith) s in
      run-Stays ops v (step dec op m) (suc n) o.1 (omega (arith, cap)) s'

  -- If no key stands twice: after a `put` and then fewer calls than the capacity, each a `put`, `get` or
  -- `remove` of another key, the map still gives the value of that `put` for its key.
  pub run-put :
      (ops : List (Op K V)) (v : V) (m : Lru K V)
      → IsDistinct dec m.entries
      → All (IsOther k) ops
      → length ops < m.max_capacity
      → lookup dec k (run dec ops (put dec k v m).0).entries ≡ some v
  run-put ops v m d o h =
      run-Stays ops v (put dec k v m).0 0 o (omega (arith, max_capacity-put dec k v m)) (record {
        distinct = put-IsDistinct dec k v m d;
        found = lookup-put_self dec k v m (omega arith) d;
        recent = younger-put-le v m (omega arith) d;
      })
