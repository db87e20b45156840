-- ===== src/LocalCache/Lru/Reads.antt =====
-- What a map gives back after a `put`, and which entry it drops.
use toyhoodle.Prelude.{
  suc, ◌<◌, ◌≡◌, refl, ◌≢◌, ◌∙◌, Bool-cases, ltb→lt, sym, inl, inr, Option, none, some, List, [],
  ◌∷◌, ◌++◌, arith, ltb, length, length-append, Option-cases, if◌then◌else◌,
}
use toyhoodle.LocalCache.Lru.{Lru, size, after_insertion, get, put}
use toyhoodle.LocalCache.Lru.Entries.{
  rest, lookup, remove_key, IsDistinct, lookup-append, lookup-remove_key_ne, lookup-remove_key_self,
}

module _ {ℓ} {K V : Type ℓ} where
  abbrev pub eldest : List (K × V) → Option K
  eldest [] = none
  eldest (e ∷ l) = some e.0

module _ {ℓ} {K V : Type ℓ} (dec : Discrete K) where
  -- The key that a `put` drops: the eldest, if the key is new and the map then over its capacity.
  unfoldable pub victim : K → V → Lru K V → Option K
  victim k v m = elim (lookup dec k m.entries) [
    | none ↦ if ltb m.max_capacity (suc (size m)) then eldest (m.entries ++ (k, v) ∷ []) else none
    | some _ ↦ none
  ]

  lookup-rest :
      (j : K) (l : List (K × V)) → eldest l ≢ some j → lookup dec j (rest l) ≡ lookup dec j l
  unfolding lookup
  lookup-rest j [] h = refl
  lookup-rest j (e ∷ l) h = ground arith

  lookup_added :
      (j k : K) (v : V) (l : List (K × V))
      → j ≢ k
      → lookup dec j (l ++ (k, v) ∷ []) ≡ lookup dec j l
  unfolding lookup
  lookup_added j k v l h = ground (arith, lookup-append dec j l ((k, v) ∷ []))

  lookup_added_self :
      (k : K) (v : V) (l : List (K × V))
      → lookup dec k l ≡ none
      → lookup dec k (l ++ (k, v) ∷ []) ≡ some v
  unfolding lookup
  lookup_added_self k v l h = ground (arith, lookup-append dec k l ((k, v) ∷ []))

  pub eldest_added :
      (k : K) (v : V) (l : List (K × V))
      → lookup dec k l ≡ none
      → 0 < length l
      → eldest (l ++ (k, v) ∷ []) ≢ some k
  unfolding lookup
  eldest_added k v [] h n = absurd (omega arith)
  eldest_added k v (e ∷ l) h n = λ q. ground arith

  lookup-after_insertion :
      (j : K) (m : Lru K V)
      → (m.max_capacity < size m → eldest m.entries ≢ some j)
      → lookup dec j (after_insertion m).entries ≡ lookup dec j m.entries
  unfolding after_insertion
  lookup-after_insertion j m kept = elim (Bool-cases (ltb m.max_capacity (size m))) [
    | inl over ↦ rw over (lookup-rest j m.entries (kept (ltb→lt _ _ over)))
    | inr fits ↦ rw fits refl
  ]

  lookup_moved :
      (j k : K) (v : V) (l : List (K × V))
      → IsDistinct dec l
      → lookup dec k l ≡ some v
      → lookup dec j (remove_key dec k l ++ (k, v) ∷ []) ≡ lookup dec j l
  lookup_moved j k v l d hit = elim (dec j k) [
    | yes p ↦ rw p (lookup_added_self k v _ (lookup-remove_key_self dec k l d) ∙ sym hit)
    | no ne ↦ lookup_added j k v _ ne ∙ lookup-remove_key_ne dec j k l ne
  ]

  -- If the capacity is not 0 and no key stands twice: right after a `put` the map gives the new value
  -- for the key.
  pub lookup-put_self :
      (k : K) (v : V) (m : Lru K V)
      → 0 < m.max_capacity
      → IsDistinct dec m.entries
      → lookup dec k (put dec k v m).0.entries ≡ some v
  unfolding put after_insertion
  lookup-put_self k v m room d = elim (Option-cases (lookup dec k m.entries)) [
    | inl miss ↦
        rw (miss, put)
          (lookup-after_insertion k _ (λ over.
              eldest_added k v m.entries miss
                (omega (arith, length-append m.entries ((k, v) ∷ []))))
            ∙ lookup_added_self k v m.entries miss)
    | inr (old, hit) ↦ rw (hit, put) (lookup_added_self k v _ (lookup-remove_key_self dec k _ d))
  ]

  -- A `put` changes what the map gives for no other key than the one that it drops.
  pub lookup-put_ne :
      (j k : K) (v : V) (m : Lru K V)
      → j ≢ k
      → victim k v m ≢ some j
      → lookup dec j (put dec k v m).0.entries ≡ lookup dec j m.entries
  unfolding put victim after_insertion
  lookup-put_ne j k v m ne kept = elim (Option-cases (lookup dec k m.entries)) [
    | inl miss ↦
        rw (miss, put)
          (lookup-after_insertion j _
              (λ over. dropped miss (omega (arith, length-append m.entries ((k, v) ∷ []))))
            ∙ lookup_added j k v m.entries ne)
    | inr (old, hit) ↦ rw (hit, put) (lookup_added j k v _ ne ∙ lookup-remove_key_ne dec j k _ ne)
  ]
    where
      dropped :
          lookup dec k m.entries ≡ none
          → m.max_capacity < suc (size m)
          → eldest (m.entries ++ (k, v) ∷ []) ≢ some j
      dropped miss over = ground (arith, kept)

  -- If no key stands twice: a `get` returns what the map gives for its key, and the map gives the same
  -- for every key afterwards.
  pub lookup-get :
      (j k : K) (m : Lru K V)
      → IsDistinct dec m.entries
      → (lookup dec j (get dec k m).0.entries ≡ lookup dec j m.entries)
        × ((get dec k m).1 ≡ lookup dec k m.entries)
  unfolding get
  lookup-get j k m d = elim (Option-cases (lookup dec k m.entries)) [
    | inl miss ↦ rw (miss, get) (refl, refl)
    | inr (v, hit) ↦ rw (hit, get) (lookup_moved j k v m.entries d hit, refl)
  ]
