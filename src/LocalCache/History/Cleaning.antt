-- ===== src/LocalCache/History/Cleaning.antt =====
-- The scheduled task of TimeReelHistory: when it ends, and what it leaves.
use toyhoodle.Prelude.{
  ℕ, zero, suc, ◌<◌, ◌≡◌, refl, true, false, Option, ltb, ◌+◌, none, some, List, [], ◌∷◌, arith,
  length, get_elem?, All,
}
use toyhoodle.LocalCache.History.Visits.{Node, reply, no_end, is_stale, get_effective_time}
use toyhoodle.LocalCache.History.Window.{first_valid, effective, poll_loop-stale, poll_loop-none}
use toyhoodle.LocalCache.History.{mark_stale, clean_entries}

get_effective_time-no_end :
    (rounds v now : ℕ) (node : Node)
    → node.removed ≡ false
    → is_stale v now node ≡ false
    → get_effective_time rounds v now node ≡ no_end
unfolding get_effective_time
get_effective_time-no_end rounds v now node live fresh =
    ground (arith, poll_loop-none rounds v now node fresh)

get_effective_time-reply :
    (rounds v now : ℕ) (node : Node)
    → node.removed ≡ false
    → is_stale v now node ≡ true
    → length node.visit_times < rounds
    → get_effective_time rounds v now node ≡ reply (effective v now node)
unfolding get_effective_time
get_effective_time-reply rounds v now node live stale enough =
    ground (arith, poll_loop-stale rounds v now node stale enough)

-- If the map has a node that is neither removed nor stale, the scheduled task never ends, whatever
-- number of rounds its loops are given.
pub clean_entries-none :
    {K : Type 0} (entries : List (K × Node)) (i rounds valid_time now : ℕ) (k : K) (node : Node)
    → get_elem? entries i ≡ some (k, node)
    → node.removed ≡ false
    → is_stale valid_time now node ≡ false
    → clean_entries rounds valid_time now entries ≡ none
unfolding clean_entries
clean_entries-none [] i rounds v now k node e live fresh = cc
clean_entries-none ((j, other) ∷ entries) zero rounds v now k node e live fresh =
    ground (arith, get_effective_time-no_end rounds v now node live fresh)
clean_entries-none ((j, other) ∷ entries) (suc i) rounds v now k node e live fresh =
    ground (arith, clean_entries-none entries i rounds v now k node e live fresh)

-- An entry that the task can handle: its node is not valid any more, and has fewer visits than rounds.
abbrev pub IsExpired : {K : Type 0} → ℕ → ℕ → ℕ → K × Node → Type 0
IsExpired rounds valid_time now (k, node) =
    (node.removed ≡ false)
    × (is_stale valid_time now node ≡ true)
    × (length node.visit_times < rounds)

-- A node after the task: the time of its first visit within the valid time counts from then on, and
-- only the visits behind that one are left; without such a visit it is marked as removed.
unfoldable pub cleaned : ℕ → ℕ → Node → Node
cleaned valid_time now node = elim (first_valid valid_time now node.visit_times) [
  | none ↦ record node { visit_times = []; removed = true }
  | some (time, times) ↦ record node { last_valid_time = time; visit_times = times }
]

unfoldable pub cleaned_nodes : {K : Type 0} → ℕ → ℕ → List (K × Node) → List Node
cleaned_nodes valid_time now [] = []
cleaned_nodes valid_time now ((k, node) ∷ entries) =
    cleaned valid_time now node ∷ cleaned_nodes valid_time now entries

first_valid-ltb :
    (v now : ℕ) (times : List ℕ) (time : ℕ) (rest : List ℕ)
    → first_valid v now times ≡ some (time, rest)
    → ltb now (time + v) ≡ true
unfolding first_valid
first_valid-ltb v now [] time rest e = cc
first_valid-ltb v now (x ∷ times) time rest e =
    ground (arith, first_valid-ltb v now times time rest)

mark_stale-first_valid :
    (v now : ℕ) (node : Node) (first : Option (ℕ × List ℕ))
    → first_valid v now node.visit_times ≡ first
    → is_stale v now node ≡ true
    → mark_stale v now (effective v now node) ≡ cleaned v now node
unfolding effective cleaned
mark_stale-first_valid v now node none e stale = ground (arith, e, stale)
mark_stale-first_valid v now node (some (time, times)) e stale =
    let valid = first_valid-ltb v now node.visit_times time times e in ground (arith, e, valid)

mark_stale-effective :
    (v now : ℕ) (node : Node)
    → is_stale v now node ≡ true
    → mark_stale v now (effective v now node) ≡ cleaned v now node
mark_stale-effective v now node stale =
    mark_stale-first_valid v now node (first_valid v now node.visit_times) refl stale

-- If every node of the map is stale and not removed, and has fewer visits than the rounds given, the
-- scheduled task ends with the map empty: also the keys that were visited within the valid time are
-- dropped. Of the dropped nodes, in their order, one with a visit within the valid time takes the time of
-- its first such visit, keeps the visits behind it and is not marked as removed, so that a thread that
-- holds it goes on with it; any other loses its visits and is marked.
pub clean_entries-expired :
    {K : Type 0} (entries : List (K × Node)) (rounds valid_time now : ℕ)
    → All (IsExpired rounds valid_time now) entries
    → clean_entries rounds valid_time now entries ≡ some ([], cleaned_nodes valid_time now entries)
unfolding clean_entries cleaned_nodes
clean_entries-expired [] rounds v now a = refl
clean_entries-expired ((k, node) ∷ entries) rounds v now a = ground (
  arith,
  get_effective_time-reply rounds v now node a.0.0 a.0.1 a.0.2,
  mark_stale-effective v now node a.0.1,
  clean_entries-expired entries rounds v now a.1,
)
