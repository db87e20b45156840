-- ===== src/LocalCache/Cache.antt =====
-- LRUCache: a cache of tasks with a time of life. The clock is a parameter.
pub mod Nodes
pub mod Get
use toyhoodle.Prelude.{ℕ, zero, suc, ◌+◌, Option, none, some, [], ltb, if◌then◌else◌}
use toyhoodle.LocalCache.Lru.{Lru, new_lru}
use toyhoodle.LocalCache.Lru
use toyhoodle.LocalCache.QueryTask.{QueryTask, new_task}

-- `task` is the call of the source for `key`, which has not been made when the node is made.
pub record Node {ℓ} (K V : Type ℓ) : Type ℓ where
  pub create_time : ℕ
  pub key : K
  pub task : QueryTask V

-- `reads` counts the readings of the clock. The time of life is not negative.
pub record LruCache {ℓ} (K V : Type ℓ) : Type ℓ where
  pub lru : Lru K (Node K V)
  pub timeout : ℕ
  pub reads : ℕ

-- `get` ends with a value or null, by a NullPointerException, or not within the depth of calls.
pub data Outcome {ℓ} (A : Type ℓ) : Type ℓ where
  ok : A → Outcome A
  null_pointer : Outcome A
  too_deep : Outcome A

module _ {ℓ} {K V : Type ℓ} where
  -- The constructor; a map without a timeout has one of 500.
  abbrev pub new_cache : ℕ → LruCache K V
  new_cache max_capacity = record { lru = new_lru max_capacity; timeout = 500; reads = 0 }

  unfoldable pub cache_size : LruCache K V → ℕ
  cache_size c = Lru.size c.lru

  unfoldable pub clear_cache : LruCache K V → LruCache K V
  clear_cache c = record c { lru = Lru.clear c.lru }

  unfoldable pub set_cache_capacity : ℕ → LruCache K V → LruCache K V
  set_cache_capacity n c = record c { lru = Lru.set_capacity n c.lru }

  unfoldable pub set_timeout : ℕ → LruCache K V → LruCache K V
  set_timeout n c = record c { timeout = n }

-- `clock n` is the n-th reading of `System.currentTimeMillis()`.
module _ {ℓ} {K V : Type ℓ} (dec : Discrete K) (clock : ℕ → ℕ) where
  unfoldable pub put_node : K → Node K V → LruCache K V → LruCache K V
  put_node k node c = record c { lru = (Lru.put dec k node c.lru).0 }

  -- `lru.get(key)`, which is null for an unknown key.
  unfoldable pub find_node : K → LruCache K V → LruCache K V × Option (Node K V)
  find_node k c = let (m, r) = Lru.get dec k c.lru in (record c { lru = m }, r)

  unfoldable pub get_node : K → LruCache K V → LruCache K V × Option (Node K V)
  get_node k c =
      let (c1, r) = find_node k c in
      elim r [
        | some node ↦ (c1, some node)
        | none ↦
            let node : Node K V = record {
              create_time = clock c1.reads;
              key = k;
              task = new_task;
            } in
            find_node k (put_node k node (record c1 { reads = suc c1.reads }))
      ]

  unfoldable pub remove_node : K → LruCache K V → LruCache K V
  remove_node k c = record c { lru = (Lru.remove dec k c.lru).0 }

  -- A null key raises. The result of the inner `get` is dropped, and null is returned; the first
  -- argument is the depth of calls of `get`.
  unfoldable pub get : ℕ → Option K → LruCache K V → Outcome (LruCache K V × Option V)
  get zero key c = too_deep
  get (suc depth) none c = null_pointer
  get (suc depth) (some k) c =
      let c1 = (find_node k c).0 in
      let (c2, r) = get_node k c1 in
      elim r [
        | none ↦ null_pointer
        | some node ↦
            let c3 = record c2 { reads = suc c2.reads } in
            let again = get depth (some k) (remove_node k c3) in
            if ltb (node.create_time + c2.timeout) (clock c2.reads)
            then elim again [
              | ok (c4, _) ↦ ok (c4, none)
              | null_pointer ↦ null_pointer
              | too_deep ↦ too_deep
            ]
            else ok (c3, none)
      ]
