-- ===== src/LocalCache/History/Window.antt =====
-- The loop of `getEffectiveTime`, and what the count of a visit counts.
use toyhoodle.Prelude.{
  ℕ, zero, suc, ◌+◌, ◌≤◌, ◌<◌, ◌≡◌, refl, Bool, true, false, Option, none, some, List, [], ◌∷◌,
  ◌++◌, arith, ltb, length, length-append, All, All-append, if◌then◌else◌, not-ltb→le,
}
use toyhoodle.LocalCache.History.Visits.{Node, reply, is_stale, poll_loop, add_visit}

-- The visits behind the first that is within the valid time, and the time of that one.
unfoldable pub first_valid : ℕ → ℕ → List ℕ → Option (ℕ × List ℕ)
first_valid valid_time now [] = none
first_valid valid_time now (time ∷ times) =
    if ltb now (time + valid_time) then some (time, times) else first_valid valid_time now times

-- A stale node after the loop.
unfoldable pub effective : ℕ → ℕ → Node → Node
effective valid_time now node = elim (first_valid valid_time now node.visit_times) [
  | none ↦ record node { visit_times = [] }
  | some (time, times) ↦ record node { last_valid_time = time; visit_times = times }
]

poll_loop_visits :
    (valid_time now last : ℕ) (removed : Bool) (times : List ℕ) (rounds : ℕ)
    → ltb (last + valid_time) now ≡ true
    → length times < rounds
    → poll_loop rounds valid_time now
        (record { last_valid_time = last; visit_times = times; removed = removed })
      ≡ some (
          effective valid_time now
            (record { last_valid_time = last; visit_times = times; removed = removed }))
unfolding poll_loop effective first_valid
poll_loop_visits v now last rm times zero h r = absurd (omega arith)
poll_loop_visits v now last rm [] (suc rounds) h r = ground arith
poll_loop_visits v now last rm (time ∷ times) (suc rounds) h r =
    ground (arith, poll_loop_visits v now last rm times rounds)

-- On a stale node the loop ends after one round more than there are visits, with the first visit
-- within the valid time as the last valid time and only the visits behind it left.
pub poll_loop-stale :
    (rounds valid_time now : ℕ) (node : Node)
    → is_stale valid_time now node ≡ true
    → length node.visit_times < rounds
    → poll_loop rounds valid_time now node ≡ some (effective valid_time now node)
poll_loop-stale rounds v now node h r =
    poll_loop_visits v now node.last_valid_time node.removed node.visit_times rounds h r

-- On a node that is not stale the loop never ends.
pub poll_loop-none :
    (rounds valid_time now : ℕ) (node : Node)
    → is_stale valid_time now node ≡ false
    → poll_loop rounds valid_time now node ≡ none
unfolding poll_loop
poll_loop-none zero v now node h = refl
poll_loop-none (suc rounds) v now node h = ground (arith, poll_loop-none rounds v now node)

-- The number of the visits that lie less than the valid time back.
unfoldable pub in_window : ℕ → ℕ → List ℕ → ℕ
in_window valid_time now [] = 0
in_window valid_time now (time ∷ times) =
    if ltb now (time + valid_time)
    then suc (in_window valid_time now times)
    else in_window valid_time now times

-- Each time is at most every later one.
abbrev pub IsAscending : List ℕ → Type 0
IsAscending [] = Unit
IsAscending (time ∷ times) = All (λ t. time ≤ t) times × IsAscending times

in_window-All :
    (v now time : ℕ) (times : List ℕ)
    → ltb now (time + v) ≡ true
    → All (λ t. time ≤ t) times
    → in_window v now times ≡ length times
unfolding in_window
in_window-All v now time [] h a = refl
in_window-All v now time (t ∷ times) h a = ground (arith, in_window-All v now time times h)

-- In ascending order the first valid visit and all behind it are the visits of the window.
in_window-first_valid :
    (v now : ℕ) (times : List ℕ)
    → IsAscending times
    → in_window v now times
      ≡ elim (first_valid v now times) [ none ↦ 0 | some (_, rest) ↦ suc (length rest) ]
unfolding in_window first_valid
in_window-first_valid v now [] a = refl
in_window-first_valid v now (t ∷ times) a =
    ground (arith, in_window-first_valid v now times, in_window-All v now t times)

All-le-append :
    (t now : ℕ) (times : List ℕ)
    → All (λ s. t ≤ s) times
    → t ≤ now
    → All (λ s. t ≤ s) (times ++ now ∷ [])
All-le-append t now times a h = All-append (λ s. t ≤ s) times (now ∷ []) a (h, tt)

IsAscending-append :
    (now : ℕ) (times : List ℕ)
    → IsAscending times
    → All (λ t. t ≤ now) times
    → IsAscending (times ++ now ∷ [])
IsAscending-append now [] a h = (tt, tt)
IsAscending-append now (t ∷ times) a h =
    (All-le-append t now times a.0 h.0, IsAscending-append now times a.1 h.1)

in_window-append :
    (v now : ℕ) (times : List ℕ)
    → 0 < v
    → in_window v now (times ++ now ∷ []) ≡ suc (in_window v now times)
unfolding in_window
in_window-append v now [] h = ground arith
in_window-append v now (t ∷ times) h = ground (arith, in_window-append v now times h)

effective-count :
    (v now : ℕ) (node : Node)
    → IsAscending node.visit_times
    → 0 < in_window v now node.visit_times
    → suc (length (effective v now node).visit_times) ≡ in_window v now node.visit_times
unfolding effective
effective-count v now node a h = ground (arith, in_window-first_valid v now node.visit_times)

-- Where the node is stale and not removed, the valid time is not 0, the visits are in order and none
-- is in the future, and there are two rounds more than visits: a visit of the node returns, and its
-- count is one less than the number of the visits within the valid time, this one included.
pub add_visit-in_window :
    (rounds valid_time now : ℕ) (node : Node)
    → node.removed ≡ false
    → is_stale valid_time now node ≡ true
    → 0 < valid_time
    → IsAscending node.visit_times
    → All (λ t. t ≤ now) node.visit_times
    → suc (length node.visit_times) < rounds
    → (node' : Node) × (count : ℕ) × (add_visit rounds valid_time now node ≡ reply (node', count))
      × (suc count ≡ in_window valid_time now (node.visit_times ++ now ∷ []))
unfolding add_visit
add_visit-in_window rounds v now node live stale pos a le enough =
    let node1 : Node = record node { visit_times = node.visit_times ++ now ∷ [] } in
    let node2 : Node = effective v now node1 in
    (
      node2,
      length node2.visit_times,
      ground (
        arith,
        poll_loop-stale rounds v now node1 stale
            (omega (arith, length-append node.visit_times (now ∷ []))),
      ),
      effective-count v now node1 (IsAscending-append now node.visit_times a le)
          (omega (arith, in_window-append v now node.visit_times pos)),
    )

in_window-within :
    (v now last : ℕ) (times : List ℕ)
    → now ≤ last + v
    → All (λ t. last < t) times
    → in_window v now times ≡ length times
unfolding in_window
in_window-within v now last [] h a = refl
in_window-within v now last (t ∷ times) h a = ground (arith, in_window-within v now last times h)

-- Where the node is neither stale nor removed, the valid time is not 0 and all visits came after the
-- last valid time: a visit of the node returns in any number of rounds, and its count is the number of
-- the visits within the valid time, this one included.
pub add_visit-fresh :
    (rounds valid_time now : ℕ) (node : Node)
    → node.removed ≡ false
    → is_stale valid_time now node ≡ false
    → 0 < valid_time
    → All (λ t. node.last_valid_time < t) node.visit_times
    → (node' : Node) × (count : ℕ) × (add_visit rounds valid_time now node ≡ reply (node', count))
      × (count ≡ in_window valid_time now (node.visit_times ++ now ∷ []))
unfolding add_visit
add_visit-fresh rounds v now node live fresh pos a =
    let node1 : Node = record node { visit_times = node.visit_times ++ now ∷ [] } in
    (
      node1,
      length node1.visit_times,
      ground arith,
      omega (
        arith,
        length-append node.visit_times (now ∷ []),
        in_window-append v now node.visit_times pos,
        in_window-within v now node.last_valid_time node.visit_times (not-ltb→le _ _ fresh) a,
      ),
    )
