-- ===== src/LocalCache/Lru.antt =====
-- LRULinkedHashMap: a `java.util.LinkedHashMap` in access order that drops its eldest entry when it
-- is over its capacity. The capacity is not negative, and no key or value is null.
pub mod Entries
pub mod Invariant
pub mod Reads
pub mod Recent
use toyhoodle.Prelude.{
  ℕ, suc, Bool, Option, none, some, List, [], ◌∷◌, ◌++◌, ltb, length, if◌then◌else◌,
}
use Entries.{lookup, remove_key, rest}

-- The entries stand in the order of their last access, the eldest first.
pub record Lru {ℓ} (K V : Type ℓ) : Type ℓ where
  pub max_capacity : ℕ
  pub entries : List (K × V)

module _ {ℓ} {K V : Type ℓ} where
  abbrev pub new_lru : ℕ → Lru K V
  new_lru max_capacity = record { max_capacity = max_capacity; entries = [] }

  abbrev pub size : Lru K V → ℕ
  size m = length m.entries

  abbrev pub clear : Lru K V → Lru K V
  clear m = record m { entries = [] }

  abbrev pub set_capacity : ℕ → Lru K V → Lru K V
  set_capacity n m = record m { max_capacity = n }

  -- `removeEldestEntry`
  unfoldable pub remove_eldest_entry : Lru K V → Bool
  remove_eldest_entry m = ltb m.max_capacity (size m)

  -- `LinkedHashMap.afterNodeInsertion`, which asks `removeEldestEntry` once.
  unfoldable pub after_insertion : Lru K V → Lru K V
  unfolding remove_eldest_entry
  after_insertion m = if remove_eldest_entry m then record m { entries = rest m.entries } else m

module _ {ℓ} {K V : Type ℓ} (dec : Discrete K) where
  -- A hit moves the entry to the end.
  unfoldable pub get : K → Lru K V → Lru K V × Option V
  get k m = elim (lookup dec k m.entries) [
    | none ↦ (m, none)
    | some v ↦ (record m { entries = remove_key dec k m.entries ++ (k, v) ∷ [] }, some v)
  ]

  -- A known key gets the new value and moves to the end; the old value is returned.
  unfoldable pub put : K → V → Lru K V → Lru K V × Option V
  unfolding after_insertion
  put k v m = elim (lookup dec k m.entries) [
    | none ↦ (after_insertion (record m { entries = m.entries ++ (k, v) ∷ [] }), none)
    | some old ↦ (record m { entries = remove_key dec k m.entries ++ (k, v) ∷ [] }, some old)
  ]

  unfoldable pub remove : K → Lru K V → Lru K V × Option V
  remove k m = (record m { entries = remove_key dec k m.entries }, lookup dec k m.entries)
