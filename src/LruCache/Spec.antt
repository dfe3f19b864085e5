-- ===== src/LruCache/Spec.antt =====
-- What an LRUCache promises: a list of entries, from the one used last to the one used least
-- recently. And the commands that a program gives to a cache, one after the other.
use brass_runtime.Base.{
  ℕ, Bool, List, [], ◌∷◌, Option, none, some, if◌then◌else◌, ◌==◌, is_some, length, ltb,
}
use brass_runtime.LruCache.{Entry, LruCache, is_expired}
use brass_runtime.LruCache

module _ {V : Type 0} where
  abbrev pub find : ℕ → List (Entry V) → Option (Entry V)
  find k [] = none
  find k (e ∷ es) = let later = find k es in if e.key == k then some e else later

  abbrev pub drop : ℕ → List (Entry V) → List (Entry V)
  drop k [] = []
  drop k (e ∷ es) = let later = drop k es in if e.key == k then es else e ∷ later

  abbrev pub drop_last : List (Entry V) → List (Entry V)
  drop_last [] = []
  drop_last (e ∷ []) = []
  drop_last (e ∷ f ∷ es) = e ∷ drop_last (f ∷ es)

  -- An entry that was found is used now, unless it is expired.
  abbrev pub use_found : Option (Entry V) → ℕ → ℕ → List (Entry V) → Option V × List (Entry V)
  use_found none now k es = (none, es)
  use_found (some e) now k es =
      if is_expired now e then (none, drop k es) else (some e.value, e ∷ drop k es)

  abbrev pub get : ℕ → ℕ → List (Entry V) → Option V × List (Entry V)
  get now k es = use_found (find k es) now k es

  -- The new entry comes first, and at most `most` entries stay.
  abbrev pub set : ℕ → Entry V → List (Entry V) → List (Entry V)
  set most e es =
      let all = e ∷ drop e.key es in if ltb most (length all) then drop_last all else all

  abbrev pub delete : ℕ → List (Entry V) → Bool × List (Entry V)
  delete k es = (is_some (find k es), drop k es)

pub data Command (V : Type 0) : Type 0 where
  get_at_time : ℕ → ℕ → Command V
  set_at_time : ℕ → ℕ → V → ℕ → Command V
  delete_key : ℕ → Command V
  clear_all : Command V

pub data Answer (V : Type 0) : Type 0 where
  found : Option V → Answer V
  deleted : Bool → Answer V
  silent : Answer V

module _ {V : Type 0} where
  unfoldable pub obey : Command V → LruCache V → Answer V × LruCache V
  obey (get_at_time now k) c = let (o, d) = LruCache.get now k c in (found o, d)
  obey (set_at_time now k v ttl) c = (silent, LruCache.set now k v ttl c)
  obey (delete_key k) c = let (b, d) = LruCache.delete k c in (deleted b, d)
  obey clear_all c = (silent, LruCache.clear c)

  unfoldable pub promise : ℕ → Command V → List (Entry V) → Answer V × List (Entry V)
  promise most (get_at_time now k) es = let (o, r) = get now k es in (found o, r)
  promise most (set_at_time now k v ttl) es =
      (silent, set most (record { key = k; value = v; stored_at = now; ttl_ms = ttl }) es)
  promise most (delete_key k) es = let (b, r) = delete k es in (deleted b, r)
  promise most clear_all es = (silent, [])

  unfoldable pub obey_all : List (Command V) → LruCache V → List (Answer V) × LruCache V
  unfolding obey
  obey_all [] c = ([], c)
  obey_all (x ∷ xs) c = let (a, d) = obey x c in let (rest, e) = obey_all xs d in (a ∷ rest, e)

  unfoldable pub promise_all :
      ℕ → List (Command V) → List (Entry V) → List (Answer V) × List (Entry V)
  unfolding promise
  promise_all most [] es = ([], es)
  promise_all most (x ∷ xs) es =
      let (a, r) = promise most x es in let (rest, t) = promise_all most xs r in (a ∷ rest, t)
