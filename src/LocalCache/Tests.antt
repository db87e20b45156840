-- ===== src/LocalCache/Tests.antt =====
-- Runs of the cache, of its map, of a task and of the visits on small inputs, and instances of the
-- theorems.
use native.Mathlib.Decide.{ℕ_discrete as dec}
use toyhoodle.Prelude.{
  ℕ, zero, suc, ◌+◌, ◌*◌, ◌<◌, ◌≤◌, ◌≡◌, refl, Bool, true, false, Option, none, some, List, [], ◌∷◌,
  ◌++◌, arith, ltb, length, replicate,
}
use toyhoodle.LocalCache.Lru.{Lru, new_lru, after_insertion, remove_eldest_entry, size, put}
use toyhoodle.LocalCache.Lru
use toyhoodle.LocalCache.Lru.Entries.{lookup, remove_key, IsDistinct}
use toyhoodle.LocalCache.Lru.Invariant.{
  Op, puts, gets, removes, clears, sets_capacity, step, run, largest_capacity, run-size-le,
}
use toyhoodle.LocalCache.Lru.Reads.{victim}
use toyhoodle.LocalCache.Lru.Recent.{run-put}
use toyhoodle.LocalCache.QueryTask.{
  Attempt, returned, raised, exe, exe_times, new_task, exe_times-new_task,
}
use toyhoodle.LocalCache.Cache.{
  LruCache, Node, Outcome, ok, null_pointer, new_cache, cache_size, clear_cache, set_cache_capacity,
  set_timeout, put_node, find_node, get_node, remove_node,
}
use toyhoodle.LocalCache.Cache
use toyhoodle.LocalCache.Cache.Get.{get-ok, Fresh}
use toyhoodle.LocalCache.History.{
  History, store, put_and_count, put_and_is_cache, clear, clean_entries,
}
use toyhoodle.LocalCache.History
use toyhoodle.LocalCache.History.Visits.{
  Reply, reply, status_exception, no_end, new_node, is_stale, poll_loop, get_effective_time,
  add_visit,
}
use toyhoodle.LocalCache.History.Visits
use toyhoodle.LocalCache.History.Window.{effective, first_valid, in_window, add_visit-in_window}
use toyhoodle.LocalCache.History.Cleaning.{cleaned, cleaned_nodes, clean_entries-expired}
use toyhoodle.LocalCache.History.Counting.{put_and_count-IsLive}

program : Unit {0}
unfolding remove_eldest_entry after_insertion lookup remove_key run step Lru.get put Lru.remove
    Cache.cache_size Cache.clear_cache set_cache_capacity set_timeout put_node find_node get_node
    remove_node Cache.get exe exe_times put_and_count put_and_is_cache clear clean_entries cleaned
    cleaned_nodes History.get_node poll_loop get_effective_time add_visit effective first_valid
    in_window largest_capacity victim dec
program = tt

-- Two entries, of which that of 1 is the eldest.
abbrev two : Lru ℕ ℕ
two = record { max_capacity = 2; entries = (1, 10) ∷ (2, 20) ∷ [] }

two-IsDistinct : IsDistinct dec two.entries
unfolding program
two-IsDistinct = (refl, (refl, tt))

abbrev ops : List (Op ℕ ℕ)
ops = puts 1 10 ∷ puts 2 20 ∷ gets 1 ∷ puts 3 30 ∷ []

ops-run : (run dec ops (new_lru 2)).entries ≡ (1, 10) ∷ (3, 30) ∷ []
unfolding program
ops-run = refl

cleared_run :
    (run dec (sets_capacity 1 ∷ removes 1 ∷ clears ∷ puts 7 70 ∷ []) two).entries ≡ (7, 70) ∷ []
unfolding program
cleared_run = refl

run-size-le_example :
    size (run dec (puts 3 30 ∷ sets_capacity 3 ∷ puts 4 40 ∷ []) two)
    ≤ largest_capacity {V = ℕ} dec 2 (puts 3 30 ∷ sets_capacity 3 ∷ puts 4 40 ∷ [])
run-size-le_example =
    run-size-le dec (puts 3 30 ∷ sets_capacity 3 ∷ puts 4 40 ∷ []) two 2 (omega arith) (omega arith)

two_kept : victim dec 3 30 two ≡ some 1
unfolding program
two_kept = refl

run-put_example : lookup dec 3 (run dec (puts 4 40 ∷ []) (put dec 3 30 two).0).entries ≡ some 30
run-put_example =
    run-put dec 3 (puts 4 40 ∷ []) 30 two two-IsDistinct
      (((λ e. ground arith), (λ e. ground arith)), tt) (omega arith)

abbrev first_raises : ℕ → Attempt ℕ
first_raises zero = raised
first_raises (suc n) = returned (some n)

task_run : (exe_times first_raises 2 new_task).1 ≡ none ∷ none ∷ []
unfolding program
task_run = refl

exe_times-new_task_example :
    ((exe_times (λ n. returned (some n)) 3 new_task).0.calls ≡ 1)
    × ((exe_times (λ n. returned (some n)) 3 new_task).1 ≡ replicate 3 (some 0))
exe_times-new_task_example = exe_times-new_task (λ n. returned (some n)) 2

abbrev clock : ℕ → ℕ
clock n = n * 100

abbrev cache : LruCache ℕ ℕ
cache = new_cache 2

-- A call for an unknown key leaves its node, made at the first reading of the clock.
abbrev after_get : LruCache ℕ ℕ
after_get = record cache {
  lru = record {
    max_capacity = 2;
    entries = (7, record { create_time = 0; key = 7; task = new_task }) ∷ [];
  };
  reads = 2;
}

cache_run : Cache.get dec clock 3 (some 7) cache ≡ ok (after_get, none)
unfolding program
cache_run = refl

null_key_run : Cache.get dec clock 3 none cache ≡ null_pointer
unfolding program
null_key_run = refl

cache_methods_run :
    (cache_size after_get ≡ 1)
    × (cache_size (clear_cache after_get) ≡ 0)
    × ((set_cache_capacity 5 cache).lru.max_capacity ≡ 5)
    × ((set_timeout 9 cache).timeout ≡ 9)
unfolding program
cache_methods_run = (refl, refl, refl, refl)

abbrev null : Option ℕ
null = none

get-ok_example :
    (c' : LruCache ℕ ℕ) × (Cache.get dec clock 2 (some 7) cache ≡ ok (c', none))
    × Fresh dec clock 7 500 c'
get-ok_example = get-ok dec clock 7 cache 0 (omega arith) tt (λ n. omega arith)

-- Three visits and a new one at 1000, with a valid time of 600.
abbrev old_node : Visits.Node
old_node = record { last_valid_time = 100; visit_times = 300 ∷ 500 ∷ 800 ∷ []; removed = false }

add_visit_run :
    add_visit 5 600 1000 old_node
    ≡ reply (record old_node { last_valid_time = 500; visit_times = 800 ∷ 1000 ∷ [] }, 2)
unfolding program
add_visit_run = refl

add_visit-in_window_example :
    (node' : Visits.Node) × (count : ℕ) × (add_visit 5 600 1000 old_node ≡ reply (node', count))
    × (suc count ≡ in_window 600 1000 (300 ∷ 500 ∷ 800 ∷ 1000 ∷ []))
add_visit-in_window_example =
    add_visit-in_window 5 600 1000 old_node refl refl (omega arith)
      ((omega arith, (omega arith, tt)), ((omega arith, tt), (tt, tt)))
      (omega arith, (omega arith, (omega arith, tt))) (omega arith)

abbrev mixed : List (ℕ × Visits.Node)
mixed = (1, old_node) ∷ (2, new_node 900) ∷ []

abbrev expired : List (ℕ × Visits.Node)
expired = (1, old_node) ∷ (2, new_node 100) ∷ []

abbrev young_node : Visits.Node
young_node = record { last_valid_time = 250; visit_times = 300 ∷ 500 ∷ []; removed = false }

clean_entries-expired_example :
    clean_entries 4 600 1000 expired ≡ some ([], cleaned_nodes 600 1000 expired)
clean_entries-expired_example =
    clean_entries-expired expired 4 600 1000
      ((refl, refl, omega arith), ((refl, refl, omega arith), tt))

-- The visit at 500 keeps its node unmarked, although the entry goes.
cleaned_run :
    cleaned_nodes 600 1000 expired
    ≡ record old_node { last_valid_time = 500; visit_times = 800 ∷ [] }
      ∷ record { last_valid_time = 100; visit_times = []; removed = true }
      ∷ []
unfolding program
cleaned_run = refl

abbrev history : History ℕ
history = record { hash_map = (1, old_node) ∷ []; valid_time = 600; hit_num = 1; reads = 10 }

history_run :
    put_and_is_cache dec clock 1 5 1 history
    ≡ some (
      store dec clock 1
          (record old_node { last_valid_time = 500; visit_times = 800 ∷ 1000 ∷ [] })
          (record history { reads = 11 }),
      true,
    )
unfolding program
history_run = refl

clear_run : clear dec clock history ≡ (record history { hash_map = [] }, true)
unfolding program
clear_run = refl

put_and_count-IsLive_example :
    (h' : History ℕ) × (count : ℕ) × (put_and_count dec clock 1 5 1 history ≡ some (h', count))
    × toyhoodle.Prelude.All (toyhoodle.LocalCache.History.Counting.IsLive 5) h'.hash_map
    × (put_and_is_cache dec clock 1 5 1 history ≡ some (h', ltb h'.hit_num count))
put_and_count-IsLive_example =
    put_and_count-IsLive dec clock 0 4 1 history (omega arith) ((refl, omega arith), tt)
