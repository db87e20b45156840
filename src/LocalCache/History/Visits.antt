-- ===== src/LocalCache/History/Visits.antt =====
-- TimeReelHistory.Node: the visits of one key.
use toyhoodle.Prelude.{
  ℕ, zero, suc, ◌+◌, Bool, true, false, Option, none, some, List, [], ◌∷◌, ◌++◌, ltb, length,
  if◌then◌else◌,
}

-- `visit_times` is the queue, its head first.
pub record Node : Type 0 where
  pub last_valid_time : ℕ
  pub visit_times : List ℕ
  pub removed : Bool

-- How a method of the node ends: it returns, throws a StatueException, or has not ended within the
-- rounds that it was given.
pub data Reply {ℓ} (A : Type ℓ) : Type ℓ where
  reply : A → Reply A
  status_exception : Reply A
  no_end : Reply A

abbrev pub new_node : ℕ → Node
new_node now = record { last_valid_time = now; visit_times = []; removed = false }

-- `newTime - lastValidTime > validTime`
abbrev pub is_stale : ℕ → ℕ → Node → Bool
is_stale valid_time now node = ltb (node.last_valid_time + valid_time) now

-- The loop of `getEffectiveTime`, by rounds. A round that finds the node not stale does nothing.
unfoldable pub poll_loop : ℕ → ℕ → ℕ → Node → Option Node
poll_loop zero valid_time now node = none
poll_loop (suc rounds) valid_time now node = elim (is_stale valid_time now node) [
  | false ↦ poll_loop rounds valid_time now node
  | true ↦ elim node.visit_times [
    | [] ↦ some node
    | time ∷ times ↦ elim (ltb now (time + valid_time)) [
      | true ↦ some (record node { last_valid_time = time; visit_times = times })
      | false ↦ poll_loop rounds valid_time now (record node { visit_times = times })
    ]
  ]
]

-- `getEffectiveTime`: the node after it, whose `last_valid_time` is the result.
unfoldable pub get_effective_time : ℕ → ℕ → ℕ → Node → Reply Node
get_effective_time rounds valid_time now node =
    if node.removed
    then status_exception
    else elim (poll_loop rounds valid_time now node) [ none ↦ no_end | some node' ↦ reply node' ]

-- `addAndgetCount`, whose count `putAndisCache` compares.
unfoldable pub add_visit : ℕ → ℕ → ℕ → Node → Reply (Node × ℕ)
unfolding get_effective_time
add_visit rounds valid_time now node =
    if node.removed
    then status_exception
    else let node1 = record node { visit_times = node.visit_times ++ now ∷ [] } in
      if is_stale valid_time now node1
      then elim (get_effective_time rounds valid_time now node1) [
        | reply node2 ↦ reply (node2, length node2.visit_times)
        | status_exception ↦ status_exception
        | no_end ↦ no_end
      ]
      else reply (node1, length node1.visit_times)
