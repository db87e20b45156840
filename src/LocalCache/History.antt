-- ===== src/LocalCache/History.antt =====
-- TimeReelHistory: how often a key was visited within the valid time. The clock is a parameter, and
-- its times are the values of `long` from 0 on, which the sums below do not leave.
pub mod Visits
pub mod Window
pub mod Cleaning
pub mod Counting
use toyhoodle.Prelude.{
  ℕ, zero, suc, ◌+◌, Bool, true, false, Option, none, some, List, [], ◌∷◌, ltb, if◌then◌else◌,
}
use toyhoodle.LocalCache.Lru.Entries.{lookup, remove_key}
use Visits.{
  Node, Reply, reply, status_exception, no_end, new_node, get_effective_time, add_visit, is_stale,
}

-- `reads` counts the readings of the clock.
pub record History (K : Type 0) : Type 0 where
  pub hash_map : List (K × Node)
  pub valid_time : ℕ
  pub hit_num : ℕ
  pub reads : ℕ

module _ {K : Type 0} (dec : Discrete K) (clock : ℕ → ℕ) where
  -- The nodes are shared objects: the map holds a changed node from then on.
  abbrev pub store : K → Node → History K → History K
  store k node h = record h { hash_map = (k, node) ∷ remove_key dec k h.hash_map }

  unfoldable pub get_node : K → History K → History K × Node
  get_node k h = elim (lookup dec k h.hash_map) [
    | some node ↦ (h, node)
    | none ↦
        let node : Node = new_node (clock h.reads) in
        (store k node (record h { reads = suc h.reads }), node)
  ]

  -- `putAndCount`; the first argument is the depth of calls, the second the rounds of the loop in
  -- `getEffectiveTime`. A node that is removed raises, and the call is made again.
  unfoldable pub put_and_count : ℕ → ℕ → K → History K → Option (History K × ℕ)
  put_and_count zero rounds k h = none
  put_and_count (suc depth) rounds k h =
      let (h1, node) = get_node k h in
      let h2 = record h1 { reads = suc h1.reads } in
      let again = put_and_count depth rounds k h1 in
      elim (add_visit rounds h1.valid_time (clock h1.reads) node) [
        | reply (node', count) ↦ some (store k node' h2, count)
        | status_exception ↦ again
        | no_end ↦ none
      ]

  -- `putAndisCache`
  unfoldable pub put_and_is_cache : ℕ → ℕ → K → History K → Option (History K × Bool)
  put_and_is_cache zero rounds k h = none
  put_and_is_cache (suc depth) rounds k h =
      let (h1, node) = get_node k h in
      let h2 = record h1 { reads = suc h1.reads } in
      let again = put_and_is_cache depth rounds k h1 in
      elim (add_visit rounds h1.valid_time (clock h1.reads) node) [
        | reply (node', count) ↦ some (store k node' h2, ltb h1.hit_num count)
        | status_exception ↦ again
        | no_end ↦ none
      ]

  unfoldable pub clear : History K → History K × Bool
  clear h = (record h { hash_map = [] }, true)

-- The mark on a node whose effective time is not within the valid time.
abbrev pub mark_stale : ℕ → ℕ → Node → Node
mark_stale valid_time now node =
    if is_stale valid_time now node then record node { removed = true } else node

-- An entry goes from the map; threads that hold its node still see the node as the task leaves it.
abbrev pub drop_entry :
    {K : Type 0}
    → Node
    → Option (List (K × Node) × List Node)
    → Option (List (K × Node) × List Node)
drop_entry node none = none
drop_entry node (some (left, dropped)) = some (left, node ∷ dropped)

-- The task that `init` schedules, at the time `now`, on the entries of the map in turn: it ends with
-- the entries that are left and the nodes that were dropped, and with none where `getEffectiveTime`
-- does not end for some entry.
unfoldable pub clean_entries :
    {K : Type 0} → ℕ → ℕ → ℕ → List (K × Node) → Option (List (K × Node) × List Node)
clean_entries rounds valid_time now [] = some ([], [])
clean_entries rounds valid_time now ((k, node) ∷ entries) =
    let rest = clean_entries rounds valid_time now entries in
    elim (get_effective_time rounds valid_time now node) [
      | reply node' ↦ drop_entry (mark_stale valid_time now node') rest
      | status_exception ↦ drop_entry node rest
      | no_end ↦ none
    ]
