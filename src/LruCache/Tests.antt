-- ===== src/LruCache/Tests.antt =====
-- Witnesses for the theorems on LRUCache: a cache of two entries, in which keys 1 and 2 are set.
use brass_runtime.Base.{ℕ, ◌+◌, ◌≤◌, true, List, [], ◌∷◌, none, some, if◌then◌else◌, ◌≡◌, leb}
use brass_runtime.LruCache.{Entry, LruCache, new_cache, size, get, set}
use brass_runtime.LruCache.Spec.{
  Command, get_at_time, set_at_time, delete_key, obey_all, promise_all,
}
use brass_runtime.LruCache.Represents.{Represents}
use brass_runtime.LruCache.Runs.{runs_refine, size_bounded}
use brass_runtime.LruCache.Laws.{get-set}

abbrev memory : ℕ → Entry ℕ
memory a = record { key = 0; value = 0; stored_at = 0; ttl_ms = 0 }

abbrev two_sets : List (Command ℕ)
two_sets = set_at_time 0 1 10 50 ∷ set_at_time 1 2 20 50 ∷ []

abbrev busy : List (Command ℕ)
busy =
    get_at_time 2 1 ∷ set_at_time 3 3 30 5 ∷ get_at_time 4 2 ∷ delete_key 1 ∷ get_at_time 9 3 ∷ []

abbrev full_cache : LruCache ℕ
full_cache = (obey_all two_sets (new_cache (some 2) true memory)).1

abbrev newer : Entry ℕ
newer = record { key = 2; value = 20; stored_at = 1; ttl_ms = 50 }

abbrev older : Entry ℕ
older = record { key = 1; value = 10; stored_at = 0; ttl_ms = 50 }

full_cache-Represents : Represents full_cache (newer ∷ older ∷ [])
unfolding promise_all
full_cache-Represents = (runs_refine (some 2) true memory two_sets).1

runs_refine_example :
    ((obey_all busy (new_cache (some 2) true memory)).0 ≡ (promise_all 2 busy []).0)
    × Represents (obey_all busy (new_cache (some 2) true memory)).1 (promise_all 2 busy []).1
runs_refine_example = runs_refine (some 2) true memory busy

size_bounded_example : size (obey_all busy (new_cache (some 2) true memory)).1 ≤ 2
size_bounded_example = size_bounded (some 2) true memory busy

get-set_example : (get 9 3 (set 5 3 30 7 full_cache)).0 ≡ (if leb (5 + 7) 9 then none else some 30)
get-set_example = get-set full_cache (newer ∷ older ∷ []) 5 9 3 7 30 full_cache-Represents
