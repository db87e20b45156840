-- ===== src/LocalCache/Cache/Nodes.antt =====
-- What the methods of LRUCache on nodes leave of the node of a key.
use toyhoodle.Prelude.{ℕ, suc, ◌<◌, ◌≡◌, refl, ◌∙◌, Option, none, some, arith}
use toyhoodle.LocalCache.Lru.{Lru}
use toyhoodle.LocalCache.Lru
use toyhoodle.LocalCache.Lru.Entries.{
  lookup, IsDistinct, remove_key-IsDistinct, lookup-remove_key_self,
}
use toyhoodle.LocalCache.Lru.Invariant.{
  get-IsDistinct, put-IsDistinct, max_capacity-get, max_capacity-put,
}
use toyhoodle.LocalCache.Lru.Reads.{lookup-get, lookup-put_self}
use toyhoodle.LocalCache.QueryTask.{new_task}
use toyhoodle.LocalCache.Cache.{Node, LruCache, put_node, find_node, get_node, remove_node}

module _ {ℓ} {K V : Type ℓ} (dec : Discrete K) (clock : ℕ → ℕ) where
  abbrev pub new_node : K → ℕ → Node K V
  new_node k reads = record { create_time = clock reads; key = k; task = new_task }

  -- The node that the cache holds for `k`, where no key stands twice and there is room for one.
  pub record Holds (k : K) (node : Option (Node K V)) (cap timeout reads : ℕ) (c : LruCache K V)
      : Type ℓ where
    pub found : lookup dec k c.lru.entries ≡ node
    pub distinct : IsDistinct dec c.lru.entries
    pub capacity : c.lru.max_capacity ≡ cap
    pub lives : c.timeout ≡ timeout
    pub clocked : c.reads ≡ reads

  module _ (k : K) (cap timeout reads : ℕ) where
    pub find_node-Holds :
        {node : Option (Node K V)} (c : LruCache K V)
        → Holds k node cap timeout reads c
        → Holds k node cap timeout reads (find_node dec clock k c).0
          × ((find_node dec clock k c).1 ≡ node)
    unfolding find_node
    find_node-Holds c h = (
      record {
        found = (lookup-get dec k k c.lru h.distinct).0 ∙ h.found;
        distinct = get-IsDistinct dec k c.lru h.distinct;
        capacity = max_capacity-get dec k c.lru ∙ h.capacity;
        lives = h.lives;
        clocked = h.clocked;
      },
      (lookup-get dec k k c.lru h.distinct).1 ∙ h.found,
    )

    pub put_node-Holds :
        {old : Option (Node K V)} (node : Node K V) (c : LruCache K V)
        → 0 < cap
        → Holds k old cap timeout reads c
        → Holds k (some node) cap timeout reads (put_node dec clock k node c)
    unfolding put_node
    put_node-Holds node c room h = record {
      found = lookup-put_self dec k node c.lru (omega (arith, h.capacity)) h.distinct;
      distinct = put-IsDistinct dec k node c.lru h.distinct;
      capacity = max_capacity-put dec k node c.lru ∙ h.capacity;
      lives = h.lives;
      clocked = h.clocked;
    }

    pub remove_node-Holds :
        {node : Option (Node K V)} (c : LruCache K V)
        → Holds k node cap timeout reads c
        → Holds k none cap timeout reads (remove_node dec clock k c)
    unfolding remove_node Lru.remove
    remove_node-Holds c h = record {
      found = lookup-remove_key_self dec k c.lru.entries h.distinct;
      distinct = remove_key-IsDistinct dec k c.lru.entries h.distinct;
      capacity = h.capacity;
      lives = h.lives;
      clocked = h.clocked;
    }

    pub get_node-Holds_old :
        (node : Node K V) (c : LruCache K V)
        → Holds k (some node) cap timeout reads c
        → Holds k (some node) cap timeout reads (get_node dec clock k c).0
          × ((get_node dec clock k c).1 ≡ some node)
    unfolding get_node
    get_node-Holds_old node c h = let (h1, e) = find_node-Holds c h in rw (e, get_node) (h1, refl)

  module _ (k : K) (cap timeout reads : ℕ) where
    pub get_node-Holds_new :
        (c : LruCache K V)
        → 0 < cap
        → Holds k none cap timeout reads c
        → Holds k (some (new_node k reads)) cap timeout (suc reads) (get_node dec clock k c).0
          × ((get_node dec clock k c).1 ≡ some (new_node k reads))
    unfolding get_node
    get_node-Holds_new c room h =
        let (h1, e) = find_node-Holds k cap timeout reads c h in
        let c1 : LruCache K V = (find_node dec clock k c).0 in
        let h2 : Holds k none cap timeout (suc reads) (record c1 { reads = suc reads }) = record {
          found = h1.found;
          distinct = h1.distinct;
          capacity = h1.capacity;
          lives = h1.lives;
          clocked = refl;
        } in
        rw (e, get_node)
          (rw h1.clocked (
            find_node-Holds k cap timeout (suc reads) _ (
              put_node-Holds k cap timeout (suc reads) (new_node k reads)
                (record c1 { reads = suc reads }) room h2)))
