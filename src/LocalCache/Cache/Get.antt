-- ===== src/LocalCache/Cache/Get.antt =====
-- `LRUCache.get`: how it ends, and what it leaves in the cache.
use toyhoodle.Prelude.{
  ℕ, zero, suc, ◌+◌, ◌-◌, ◌≤◌, ◌<◌, ◌≡◌, refl, inl, inr, Option, none, some, true, arith, ltb,
  Bool-cases, not-ltb→le, le→not-ltb, lt→ltb, ltb→lt, ap, Option-cases, [],
}
use toyhoodle.LocalCache.Lru.{Lru, after_insertion}
use toyhoodle.LocalCache.Lru
use toyhoodle.LocalCache.Lru.Entries.{lookup, IsDistinct}
use toyhoodle.LocalCache.Cache.{
  Node, LruCache, ok, null_pointer, put_node, find_node, get_node, remove_node, get,
}
use toyhoodle.LocalCache.Cache.Nodes.{
  new_node, Holds, find_node-Holds, remove_node-Holds, get_node-Holds_old, get_node-Holds_new,
}

module _ {ℓ} {K V : Type ℓ} (dec : Discrete K) (clock : ℕ → ℕ) where
  -- Whatever the cache, the key and the depth of calls: where `get` returns, it returns null.
  pub get-none :
      (depth : ℕ) (key : Option K) (c : LruCache K V) {c' : LruCache K V} {r : Option V}
      → get dec clock depth key c ≡ ok (c', r)
      → r ≡ none
  unfolding get
  get-none zero key c h = cc
  get-none (suc depth) none c h = cc
  get-none (suc depth) (some k) c h = ground arith

  module _ (k : K) (cap timeout reads : ℕ) where
    abbrev looked_up : LruCache K V → LruCache K V × Option (Node K V)
    looked_up c = get_node dec clock k (find_node dec clock k c).0

    -- A `get` that finds a node which is not too old returns at once.
    get_fresh :
        (depth : ℕ) (node : Node K V) (c : LruCache K V)
        → (looked_up c).1 ≡ some node
        → Holds dec clock k (some node) cap timeout reads (looked_up c).0
        → clock reads ≤ node.create_time + timeout
        → get dec clock (suc depth) (some k) c
          ≡ ok (record (looked_up c).0 { reads = suc reads }, none)
    unfolding get
    get_fresh depth node c e h young =
        rw (e, get) (rw (h.clocked, h.lives) (rw (le→not-ltb _ _ young) refl))

    -- One that finds a node which is too old removes it, and returns if the inner `get` does.
    get_expired :
        (depth : ℕ) (node : Node K V) (c c' : LruCache K V) {r : Option V}
        → (looked_up c).1 ≡ some node
        → Holds dec clock k (some node) cap timeout reads (looked_up c).0
        → node.create_time + timeout < clock reads
        → get dec clock depth
            (some k)
            (remove_node dec clock k (record (looked_up c).0 { reads = suc (looked_up c).0.reads }))
          ≡ ok (c', r)
        → get dec clock (suc depth) (some k) c ≡ ok (c', none)
    unfolding get
    get_expired depth node c c' e h old inner =
        let stale : ltb (node.create_time + (looked_up c).0.timeout) (clock (looked_up c).0.reads)
            ≡ true =
          rw (h.clocked, h.lives) (lt→ltb _ _ old) in
        rw (e, get) (rw stale (rw inner refl))

  module _ (k : K) (cap timeout : ℕ) (room : 0 < cap) where
    -- Within `timeout` of the making of its node, a `get` of an unknown key returns.
    get_new :
        (depth reads : ℕ) (c : LruCache K V)
        → clock (suc reads) ≤ clock reads + timeout
        → Holds dec clock k none cap timeout reads c
        → (c' : LruCache K V) × (get dec clock (suc depth) (some k) c ≡ ok (c', none))
          × Holds dec clock k (some (new_node dec clock k reads)) cap timeout (suc (suc reads)) c'
    get_new depth reads c slow h =
        let (h1, miss) = find_node-Holds dec clock k cap timeout reads c h in
        let (h2, made) =
          get_node-Holds_new dec clock k cap timeout reads (find_node dec clock k c).0 room h1 in
        (
          record (looked_up k cap timeout reads c).0 { reads = suc (suc reads) },
          get_fresh k cap timeout (suc reads) depth (new_node dec clock k reads) c made h2 slow,
          record {
            found = h2.found;
            distinct = h2.distinct;
            capacity = h2.capacity;
            lives = h2.lives;
            clocked = refl;
          },
        )

  -- What is promised of a `get` that returned `c'`: no key stands twice, and `k` has a node which, at
  -- the last reading of the clock, was not older than the time of life.
  pub record Fresh (k : K) (timeout : ℕ) (c' : LruCache K V) : Type ℓ where
    pub node : Node K V
    pub distinct : IsDistinct dec c'.lru.entries
    pub found : lookup dec k c'.lru.entries ≡ some node
    pub young : clock (c'.reads - 1) ≤ node.create_time + timeout

  Fresh-Holds :
      (k : K) (node : Node K V) {cap : ℕ} (timeout reads : ℕ) {c' : LruCache K V}
      → Holds dec clock k (some node) cap timeout (suc reads) c'
      → clock reads ≤ node.create_time + timeout
      → Fresh k timeout c'
  Fresh-Holds k node timeout reads {c'} h y = record {
    node = node;
    distinct = h.distinct;
    found = h.found;
    young = let e : c'.reads - 1 ≡ reads = omega (arith, h.clocked) in rw e y;
  }

  module _ (k : K) (c : LruCache K V) where
    get_known :
        (depth : ℕ) (node : Node K V)
        → 0 < c.lru.max_capacity
        → ((n : ℕ) → clock (suc n) ≤ clock n + c.timeout)
        → Holds dec clock k (some node) c.lru.max_capacity c.timeout c.reads c
        → (c' : LruCache K V) × (get dec clock (suc (suc depth)) (some k) c ≡ ok (c', none))
          × Fresh k c.timeout c'
    get_known depth node room slow h =
        let (h1, hit) = find_node-Holds dec clock k c.lru.max_capacity c.timeout c.reads c h in
        let (h2, got) =
          get_node-Holds_old dec clock k c.lru.max_capacity c.timeout c.reads node
            (find_node dec clock k c).0 h1 in
        elim (Bool-cases (ltb (node.create_time + c.timeout) (clock c.reads))) [
          | inl old ↦
              let c2 : LruCache K V = (get_node dec clock k (find_node dec clock k c).0).0 in
              let h3 : Holds dec clock k (some node) c.lru.max_capacity c.timeout (suc c.reads)
                  (record c2 { reads = suc c2.reads }) =
                record {
                  found = h2.found;
                  distinct = h2.distinct;
                  capacity = h2.capacity;
                  lives = h2.lives;
                  clocked = ap suc h2.clocked;
                } in
              let (c', e, h4) =
                get_new k c.lru.max_capacity c.timeout room depth (suc c.reads) _
                  (slow (suc c.reads))
                  (remove_node-Holds dec clock k c.lru.max_capacity c.timeout (suc c.reads) _ h3) in
              (
                c',
                get_expired k c.lru.max_capacity c.timeout c.reads (suc depth) node c c' got h2
                    (ltb→lt _ _ old) e,
                Fresh-Holds k _ c.timeout (suc (suc c.reads)) h4 (slow (suc c.reads)),
              )
          | inr young ↦
              let c2 : LruCache K V = (get_node dec clock k (find_node dec clock k c).0).0 in
              let h3 : Holds dec clock k (some node) c.lru.max_capacity c.timeout (suc c.reads)
                  (record c2 { reads = suc c.reads }) =
                record {
                  found = h2.found;
                  distinct = h2.distinct;
                  capacity = h2.capacity;
                  lives = h2.lives;
                  clocked = refl;
                } in
              (
                record c2 { reads = suc c.reads },
                get_fresh k c.lru.max_capacity c.timeout c.reads (suc depth) node c got h2
                    (not-ltb→le _ _ young),
                Fresh-Holds k node c.timeout c.reads h3 (not-ltb→le _ _ young),
              )
        ]

    -- If there is room for a node, no key stands twice and two readings of the clock in a row are never
    -- further apart than the time of life, then `get` of a key returns (null), calling itself once at
    -- most, and leaves the keys distinct and a node of the key in the cache that is not too old.
    pub get-ok :
        (depth : ℕ)
        → 0 < c.lru.max_capacity
        → IsDistinct dec c.lru.entries
        → ((n : ℕ) → clock (suc n) ≤ clock n + c.timeout)
        → (c' : LruCache K V) × (get dec clock (suc (suc depth)) (some k) c ≡ ok (c', none))
          × Fresh k c.timeout c'
    get-ok depth room d slow = elim (Option-cases (lookup dec k c.lru.entries)) [
      | inl miss ↦
          let (c', e, h) =
            get_new k c.lru.max_capacity c.timeout room (suc depth) c.reads c (slow c.reads)
              (record {
                found = miss;
                distinct = d;
                capacity = refl;
                lives = refl;
                clocked = refl;
              }) in
          (c', e, Fresh-Holds k _ c.timeout (suc c.reads) h (slow c.reads))
      | inr (node, hit) ↦
          get_known depth node room slow
            (record { found = hit; distinct = d; capacity = refl; lives = refl; clocked = refl })
    ]

  -- In a cache whose capacity is 0 and that holds nothing, `get` of a key raises a NullPointerException,
  -- since the node that it makes is dropped at once; a null key raises one in any cache.
  pub get-null_pointer :
      (depth : ℕ) (k : K) (c : LruCache K V)
      → c.lru.max_capacity ≡ 0
      → c.lru.entries ≡ []
      → (get dec clock (suc depth) (some k) c ≡ null_pointer)
        × ((c' : LruCache K V) → get dec clock (suc depth) none c' ≡ null_pointer)
  unfolding get get_node find_node put_node Lru.get Lru.put after_insertion lookup
  get-null_pointer depth k c cap none_held = (ground arith, λ c'. refl)
