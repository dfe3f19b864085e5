-- ===== src/LruCache.antt =====
-- http/lifecycle/lruCache.ts (`LRUCache<V>`), with its pointers and its map.
-- A key is a number, since only the equality of keys matters. A node is known by its address; its
-- pointers are in `links`, its other fields in `entry`. What `now()` answers is an argument.
-- The calls of `onEvict` are recorded in `evictions`, the latest first.
pub mod Spec
pub mod Keys
pub mod Holds
pub mod Entries
pub mod Represents
pub mod Refines
pub mod Runs
pub mod Laws
mod Tests
use brass_runtime.Base.{
  ℕ, suc, ◌+◌, ◌-◌, Bool, true, false, List, [], ◌∷◌, Option, none, some, if◌then◌else◌, ◌==◌,
  is_some, leb, ltb, max,
}
use brass_runtime.Links.{Links, no_links, write, remove_node, add_to_head}

pub record Entry (V : Type 0) : Type 0 where
  pub key : ℕ
  pub value : V
  pub stored_at : ℕ
  pub ttl_ms : ℕ

-- A `Map`: what `get` finds, and the `size`.
pub record KeyMap : Type 0 where
  pub lookup : ℕ → Option ℕ
  pub size : ℕ

abbrev pub map_set : ℕ → ℕ → KeyMap → KeyMap
map_set k a m = record {
  lookup = write m.lookup k (some a);
  size = if is_some (m.lookup k) then m.size else suc m.size;
}

abbrev pub map_delete : ℕ → KeyMap → KeyMap
map_delete k m = record {
  lookup = write m.lookup k none;
  size = if is_some (m.lookup k) then m.size - 1 else m.size;
}

abbrev pub no_keys : KeyMap
no_keys = record { lookup = λ k. none; size = 0 }

pub record LruCache (V : Type 0) : Type 0 where
  pub keys : KeyMap
  pub links : Links
  pub entry : ℕ → Entry V
  pub made : ℕ
  pub max_entries : ℕ
  pub has_on_evict : Bool
  pub evictions : List ℕ

-- `Math.max(1, Math.floor(max))`, where `max` is 1024 if it is not given.
abbrev pub entries_allowed : Option ℕ → ℕ
entries_allowed none = 1024
entries_allowed (some n) = max 1 n

-- `this.head === node`
abbrev pub is_head : Option ℕ → ℕ → Bool
is_head none a = false
is_head (some b) a = b == a

module _ {V : Type 0} where
  -- The constructor; `memory` is what the addresses hold before.
  unfoldable pub new_cache : Option ℕ → Bool → (ℕ → Entry V) → LruCache V
  new_cache max_entries on_evict memory = record {
    keys = no_keys;
    links = no_links;
    entry = memory;
    made = 0;
    max_entries = entries_allowed max_entries;
    has_on_evict = on_evict;
    evictions = [];
  }

  abbrev pub size : LruCache V → ℕ
  size c = c.keys.size

  -- `now() - node.storedAt >= node.ttlMs`, with the subtraction moved to the other side.
  abbrev pub is_expired : ℕ → Entry V → Bool
  is_expired now e = leb (e.stored_at + e.ttl_ms) now

  unfoldable pub move_to_head : ℕ → LruCache V → LruCache V
  unfolding remove_node add_to_head
  move_to_head a c =
      if is_head c.links.head a
      then c
      else record c { links = add_to_head a (remove_node a c.links) }

  -- The node leaves the list and its key leaves the map.
  unfoldable pub drop_node : ℕ → ℕ → LruCache V → LruCache V
  unfolding remove_node
  drop_node a k c = record c { links = remove_node a c.links; keys = map_delete k c.keys }

  -- What `get` does with the node that it finds.
  unfoldable pub get_at : Option ℕ → ℕ → ℕ → LruCache V → Option V × LruCache V
  unfolding drop_node move_to_head
  get_at none now k c = (none, c)
  get_at (some a) now k c =
      if is_expired now (c.entry a)
      then (none, drop_node a k c)
      else (some (c.entry a).value, move_to_head a c)

  unfoldable pub get : ℕ → ℕ → LruCache V → Option V × LruCache V
  unfolding get_at
  get now k c = get_at (c.keys.lookup k) now k c

  unfoldable pub evict_at : Option ℕ → LruCache V → LruCache V
  unfolding drop_node
  evict_at none c = c
  evict_at (some a) c =
      let d = drop_node a (c.entry a).key c in
      record d { evictions = if d.has_on_evict then 1 ∷ d.evictions else d.evictions }

  unfoldable pub evict_tail : LruCache V → LruCache V
  unfolding evict_at
  evict_tail c = evict_at c.links.tail c

  unfoldable pub insert_new : ℕ → ℕ → V → ℕ → LruCache V → LruCache V
  unfolding evict_tail add_to_head
  insert_new now k v ttl c =
      let d = record c {
        entry = write c.entry c.made (record { key = k; value = v; stored_at = now; ttl_ms = ttl });
        made = suc c.made;
        keys = map_set k c.made c.keys;
        links = add_to_head c.made c.links;
      } in
      if ltb d.max_entries d.keys.size then evict_tail d else d

  -- What `set` does with the node that it finds.
  unfoldable pub set_at : Option ℕ → ℕ → ℕ → V → ℕ → LruCache V → LruCache V
  unfolding move_to_head insert_new
  set_at (some a) now k v ttl c =
      let fresh = record (c.entry a) { value = v; stored_at = now; ttl_ms = ttl } in
      move_to_head a (record c { entry = write c.entry a fresh })
  set_at none now k v ttl c = insert_new now k v ttl c

  unfoldable pub set : ℕ → ℕ → V → ℕ → LruCache V → LruCache V
  unfolding set_at
  set now k v ttl c = set_at (c.keys.lookup k) now k v ttl c

  unfoldable pub delete_at : Option ℕ → ℕ → LruCache V → Bool × LruCache V
  unfolding drop_node
  delete_at none k c = (false, c)
  delete_at (some a) k c = (true, drop_node a k c)

  unfoldable pub delete : ℕ → LruCache V → Bool × LruCache V
  unfolding delete_at
  delete k c = delete_at (c.keys.lookup k) k c

  unfoldable pub clear : LruCache V → LruCache V
  clear c = record c { keys = no_keys; links = record c.links { head = none; tail = none } }
