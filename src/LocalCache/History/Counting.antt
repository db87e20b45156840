-- ===== src/LocalCache/History/Counting.antt =====
-- `putAndCount` and `putAndisCache` on the map of nodes.
use toyhoodle.Prelude.{
  ℕ, suc, ◌≤◌, ◌<◌, ◌≡◌, refl, ◌∙◌, inl, inr, false, none, some, List, [], ◌∷◌, ◌++◌, arith, length,
  length-append, ltb, All, Option-cases, Bool-cases,
}
use toyhoodle.LocalCache.Lru.Entries.{lookup, remove_key}
use toyhoodle.LocalCache.History.Visits.{Node, reply, is_stale, add_visit}
use toyhoodle.LocalCache.History.Window.{effective, first_valid, poll_loop-stale}
use toyhoodle.LocalCache.History.{History, store, get_node, put_and_count, put_and_is_cache}

-- A node that is in use, with fewer than `bound` visits.
abbrev pub IsLive : {K : Type 0} → ℕ → K × Node → Type 0
IsLive bound (k, node) = (node.removed ≡ false) × (length node.visit_times < bound)

length-first_valid :
    (v now : ℕ) (times : List ℕ)
    → elim (first_valid v now times) [ none ↦ 0 | some (_, rest) ↦ length rest ] ≤ length times
unfolding first_valid
length-first_valid v now [] = omega arith
length-first_valid v now (t ∷ times) = ground (arith, length-first_valid v now times)

length-effective :
    (v now : ℕ) (node : Node) → length (effective v now node).visit_times ≤ length node.visit_times
unfolding effective
length-effective v now node = ground (arith, length-first_valid v now node.visit_times)

removed-effective : (v now : ℕ) (node : Node) → (effective v now node).removed ≡ node.removed
unfolding effective
removed-effective v now node = ground arith

-- A visit of a live node returns, and leaves it live with at most one visit more.
add_visit-reply :
    (rounds v now : ℕ) (node : Node)
    → node.removed ≡ false
    → suc (length node.visit_times) < rounds
    → (node' : Node) × (add_visit rounds v now node ≡ reply (node', length node'.visit_times))
      × (node'.removed ≡ false)
      × (length node'.visit_times ≤ suc (length node.visit_times))
unfolding add_visit
add_visit-reply rounds v now node live enough =
    let node1 : Node = record node { visit_times = node.visit_times ++ now ∷ [] } in
    let grown : length node1.visit_times ≡ suc (length node.visit_times) =
      omega (arith, length-append node.visit_times (now ∷ [])) in
    elim (Bool-cases (is_stale v now node1)) [
      | inl stale ↦ (
        effective v now node1,
        ground (arith, poll_loop-stale rounds v now node1 stale (omega arith)),
        removed-effective v now node1 ∙ live,
        omega (arith, length-effective v now node1),
      )
      | inr fresh ↦ (node1, ground arith, live, omega arith)
    ]

module _ {K : Type 0} (dec : Discrete K) (clock : ℕ → ℕ) where
  All-weaken : (b : ℕ) (l : List (K × Node)) → All (IsLive b) l → All (IsLive (suc b)) l
  All-weaken b [] a = tt
  All-weaken b (e ∷ l) a = ((a.0.0, omega arith), All-weaken b l a.1)

  All-remove_key :
      (b : ℕ) (k : K) (l : List (K × Node)) → All (IsLive b) l → All (IsLive b) (remove_key dec k l)
  unfolding remove_key
  All-remove_key b k [] a = tt
  All-remove_key b k (e ∷ l) a = ground (arith, All-remove_key b k l a.1)

  lookup-IsLive :
      (b : ℕ) (k : K) (l : List (K × Node)) (node : Node)
      → All (IsLive b) l
      → lookup dec k l ≡ some node
      → (node.removed ≡ false) × (length node.visit_times < b)
  unfolding lookup
  lookup-IsLive b k [] node a e = cc
  lookup-IsLive b k (x ∷ l) node a e = ground (arith, lookup-IsLive b k l node a.1)

  -- `getNode` gives a live node of a map of live nodes.
  get_node-IsLive :
      (b : ℕ) (k : K) (h : History K)
      → 0 < b
      → All (IsLive b) h.hash_map
      → IsLive b (k, (get_node dec clock k h).1)
        × All (IsLive b) (get_node dec clock k h).0.hash_map
  unfolding get_node
  get_node-IsLive b k h pos a = elim (Option-cases (lookup dec k h.hash_map)) [
    | inl miss ↦ rw (miss, get_node) ((refl, pos), ((refl, pos), All-remove_key b k h.hash_map a))
    | inr (node, hit) ↦ rw (hit, get_node) (lookup-IsLive b k h.hash_map node a hit, a)
  ]

  -- If every node of the map has fewer visits than a bound that is not 0, and none is removed:
  -- `putAndCount` returns without calling itself, within one round more than the bound, and leaves no
  -- node removed and none with more visits than the bound. `putAndisCache` leaves the same map and says
  -- whether the same count is over the number of hits.
  pub put_and_count-IsLive :
      (depth bound : ℕ) (k : K) (h : History K)
      → 0 < bound
      → All (IsLive bound) h.hash_map
      → (h' : History K) × (count : ℕ) × (put_and_count dec clock (suc depth) (suc bound) k h
          ≡ some (h', count))
        × All (IsLive (suc bound)) h'.hash_map
        × (put_and_is_cache dec clock (suc depth) (suc bound) k h ≡ some (h', ltb h'.hit_num count))
  unfolding put_and_count put_and_is_cache
  put_and_count-IsLive depth bound k h pos a =
      let h1 : History K = (get_node dec clock k h).0 in
      let (live, all) = get_node-IsLive bound k h pos a in
      let (node', e, live', few) =
        add_visit-reply (suc bound) h1.valid_time (clock h1.reads) (get_node dec clock k h).1 live.0
          (omega (arith, live.1)) in
      (
        store dec clock k node' (record h1 { reads = suc h1.reads }),
        length node'.visit_times,
        rw (e, put_and_count) refl,
        (
          (live', omega (arith, live.1)),
          All-remove_key (suc bound) k h1.hash_map (All-weaken bound h1.hash_map all),
        ),
        rw (e, put_and_is_cache) refl,
      )
