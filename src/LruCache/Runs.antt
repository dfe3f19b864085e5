-- ===== src/LruCache/Runs.antt =====
-- A cache from its constructor on, under any commands.
use brass_runtime.Base.{
  ℕ, ◌≤◌, Bool, List, [], ◌∷◌, Option, none, some, ◌≡◌, arith, refl, ap, ◌∙◌, either_branch, subst,
  ltb,
}
use brass_runtime.LruCache.{
  Entry, LruCache, get_at, set_at, delete_at, evict_at, insert_new, evict_tail, is_expired,
  new_cache, entries_allowed,
}
use brass_runtime.LruCache
use brass_runtime.LruCache.Holds.{with_new}
use brass_runtime.LruCache.Spec.{Command, Answer, obey, obey_all, promise, promise_all}
use brass_runtime.LruCache.Spec
use brass_runtime.LruCache.Represents.{
  Represents, Alike, new_cache-Represents, move_to_head-max_entries,
}
use brass_runtime.LruCache.Refines.{obey-Represents}

module _ {V : Type 0} where
  abbrev SameLimit : LruCache V → LruCache V → Type 0
  SameLimit c d = d.max_entries ≡ c.max_entries

  get_at-SameLimit : (o : Option ℕ) (now k : ℕ) (c : LruCache V) → SameLimit c (get_at o now k c).1
  unfolding get_at
  get_at-SameLimit none now k c = refl
  get_at-SameLimit (some a) now k c =
      either_branch (λ (r : Option V × LruCache V). SameLimit c r.1) (is_expired now (c.entry a))
        (λ _. refl) (λ _. move_to_head-max_entries a c)

  evict_at-SameLimit : (o : Option ℕ) (c : LruCache V) → SameLimit c (evict_at o c)
  unfolding evict_at
  evict_at-SameLimit none c = refl
  evict_at-SameLimit (some a) c = refl

  set_at-SameLimit :
      (o : Option ℕ) (now k : ℕ) (v : V) (ttl : ℕ) (c : LruCache V)
      → SameLimit c (set_at o now k v ttl c)
  unfolding set_at insert_new evict_tail
  set_at-SameLimit (some a) now k v ttl c = move_to_head-max_entries a _
  set_at-SameLimit none now k v ttl c =
      let d = with_new (record { key = k; value = v; stored_at = now; ttl_ms = ttl }) c in
      either_branch (SameLimit c) (ltb c.max_entries d.keys.size)
        (λ _. evict_at-SameLimit d.links.tail d) (λ _. refl)

  delete_at-SameLimit : (o : Option ℕ) (k : ℕ) (c : LruCache V) → SameLimit c (delete_at o k c).1
  unfolding delete_at
  delete_at-SameLimit none k c = refl
  delete_at-SameLimit (some a) k c = refl

  obey-SameLimit : (x : Command V) (c : LruCache V) → SameLimit c (obey x c).1
  unfolding obey LruCache.get LruCache.set LruCache.delete LruCache.clear
  obey-SameLimit (Spec.get_at_time now k) c = get_at-SameLimit (c.keys.lookup k) now k c
  obey-SameLimit (Spec.set_at_time now k v ttl) c = set_at-SameLimit (c.keys.lookup k) now k v ttl c
  obey-SameLimit (Spec.delete_key k) c = delete_at-SameLimit (c.keys.lookup k) k c
  obey-SameLimit Spec.clear_all c = refl

  obey_all-Represents :
      (xs : List (Command V)) (c : LruCache V) (es : List (Entry V))
      → Represents c es
      → Alike (obey_all xs c) (promise_all c.max_entries xs es) × SameLimit c (obey_all xs c).1
  unfolding obey_all promise_all
  obey_all-Represents [] c es r = ((refl, r), refl)
  obey_all-Represents (x ∷ xs) c es r =
      let (a, r1) = obey-Represents x c es r in
      let same = obey-SameLimit x c in
      let ((b, r2), same2) =
        obey_all-Represents xs (obey x c).1 (promise c.max_entries x es).1 r1 in
      let rest = promise c.max_entries x es in
      let (b', r3) =
        subst (λ n. Alike (obey_all xs (obey x c).1) (promise_all n xs rest.1)) same (b, r2) in
      ((ap (λ y. y ∷ (obey_all xs (obey x c).1).0) a ∙ ap (◌∷◌ rest.0) b', r3), same2 ∙ same)

  -- Whatever the commands, a new cache answers as the list of entries does, and represents it.
  pub runs_refine :
      (most : Option ℕ) (on_evict : Bool) (memory : ℕ → Entry V) (xs : List (Command V))
      → ((obey_all xs (new_cache most on_evict memory)).0
          ≡ (promise_all (entries_allowed most) xs []).0)
        × Represents
            (obey_all xs (new_cache most on_evict memory)).1
            (promise_all (entries_allowed most) xs []).1
  unfolding new_cache
  runs_refine most on_evict memory xs =
      (obey_all-Represents xs (new_cache most on_evict memory) []
        (new_cache-Represents most on_evict memory)).0

  -- Whatever the commands, a cache made for `most` entries holds at most that many, and at most
  -- one if `most` is 0.
  pub size_bounded :
      (most : Option ℕ) (on_evict : Bool) (memory : ℕ → Entry V) (xs : List (Command V))
      → LruCache.size (obey_all xs (new_cache most on_evict memory)).1 ≤ entries_allowed most
  unfolding new_cache
  size_bounded most on_evict memory xs =
      let ((e, r), same) =
        obey_all-Represents xs (new_cache most on_evict memory) []
          (new_cache-Represents most on_evict memory) in
      omega (arith, r.holds.counted, r.few, same)
