-- ===== src/LruCache/Represents.antt =====
-- When a cache represents a list of entries, and what its inner operations do to that list.
use brass_runtime.Base.{
  ℕ, suc, ◌<◌, ◌≤◌, Bool, true, false, List, [], ◌∷◌, Option, none, some, if◌then◌else◌, ◌==◌, ◌≡◌,
  length, arith, refl, ap, sym, ◌∙◌, either_branch, subst, ltb,
}
use brass_runtime.Links.{without, write_self, write_ne}
use brass_runtime.Links.Ends.{last_inside}
use brass_runtime.LruCache.{
  Entry, LruCache, get_at, set_at, delete_at, evict_at, insert_new, evict_tail, move_to_head,
  drop_node, is_expired, new_cache,
}
use brass_runtime.LruCache
use brass_runtime.LruCache.Keys.{holder, holder-inside, length-without}
use brass_runtime.LruCache.Holds.{
  Holds, key_of, drop_node-Holds, move_to_head-Holds, with_new, with_new-Holds,
}
use brass_runtime.LruCache.Spec.{
  find, drop, drop_last, Command, Answer, obey, obey_all, promise, promise_all,
}
use brass_runtime.LruCache.Spec
use brass_runtime.LruCache.Entries.{
  entries, length-entries, drop-absent, drop-entries, drop_last-entries, agree-entries, last_exists,
}

other_than : (a m : ℕ) → a < m → (a == m) ≡ false
other_than a m h = ground arith

fits : (m n l : ℕ) → ltb m n ≡ false → n ≡ l → l ≤ m
fits m n l h e = ground arith

module _ {V : Type 0} where
  -- A cache represents a list of entries, which is no longer than allowed.
  pub record Represents (c : LruCache V) (es : List (Entry V)) : Type 0 where
    pub ids : List ℕ
    pub holds : Holds c ids
    pub same : es ≡ entries c.entry ids
    pub few : length ids ≤ c.max_entries
    pub some_allowed : 0 < c.max_entries

  abbrev pub Alike {ℓ} : {A : Type ℓ} → A × LruCache V → A × List (Entry V) → Type ℓ
  Alike (x, c) (y, es) = (x ≡ y) × Represents c es

  pub new_cache-Represents :
      (most : Option ℕ) (on_evict : Bool) (memory : ℕ → Entry V)
      → Represents (new_cache most on_evict memory) []
  unfolding new_cache
  new_cache-Represents most on_evict memory = record {
    ids = [];
    holds = record {
      chain = record {
        from_head = refl;
        from_tail = refl;
        distinct = tt;
        forwards = tt;
        backwards = tt;
      };
      looked = λ k. refl;
      unique = tt;
      counted = refl;
      below = λ a m. absurd (ground (arith, m));
    };
    same = refl;
    few = omega arith;
    some_allowed = allowed most;
  }
    where
      allowed : (most : Option ℕ) → 0 < LruCache.entries_allowed most
      allowed none = omega arith
      allowed (some n) = omega arith

  pub clear-Represents :
      (c : LruCache V) (es : List (Entry V)) → Represents c es → Represents (LruCache.clear c) []
  unfolding LruCache.clear
  clear-Represents c es r = record {
    ids = [];
    holds = record {
      chain = record {
        from_head = refl;
        from_tail = refl;
        distinct = tt;
        forwards = tt;
        backwards = tt;
      };
      looked = λ k. refl;
      unique = tt;
      counted = refl;
      below = λ a m. absurd (ground (arith, m));
    };
    same = refl;
    few = omega arith;
    some_allowed = r.some_allowed;
  }

  pub dropped-Represents :
      (k a : ℕ) (c : LruCache V) (ids : List ℕ)
      → Holds c ids
      → length ids ≤ c.max_entries
      → 0 < c.max_entries
      → holder (key_of c.entry) k ids ≡ some a
      → Represents (drop_node a k c) (drop k (entries c.entry ids))
  unfolding drop_node
  dropped-Represents k a c ids m few some_allowed e =
      let (i, s) = holder-inside (key_of c.entry) k a ids e in
      record {
        ids = without a ids;
        holds = drop_node-Holds a k c ids i s m;
        same = drop-entries c.entry k a ids m.chain.distinct e;
        few = omega (arith, length-without a ids i);
        some_allowed = some_allowed;
      }

  pub move_to_head-entry : (a : ℕ) (c : LruCache V) → (move_to_head a c).entry ≡ c.entry
  unfolding move_to_head
  move_to_head-entry a c =
      either_branch (λ (d : LruCache V). d.entry ≡ c.entry) (LruCache.is_head c.links.head a)
        (λ _. refl) (λ _. refl)

  pub move_to_head-max_entries :
      (a : ℕ) (c : LruCache V) → (move_to_head a c).max_entries ≡ c.max_entries
  unfolding move_to_head
  move_to_head-max_entries a c =
      either_branch (λ (d : LruCache V). d.max_entries ≡ c.max_entries)
        (LruCache.is_head c.links.head a) (λ _. refl) (λ _. refl)

  pub moved-Represents :
      (k a : ℕ) (c : LruCache V) (ids : List ℕ)
      → Holds c ids
      → length ids ≤ c.max_entries
      → 0 < c.max_entries
      → holder (key_of c.entry) k ids ≡ some a
      → Represents (move_to_head a c) (c.entry a ∷ drop k (entries c.entry ids))
  moved-Represents k a c ids m few some_allowed e =
      let (i, s) = holder-inside (key_of c.entry) k a ids e in
      record {
        ids = a ∷ without a ids;
        holds = move_to_head-Holds a c ids i m;
        same =
            subst (λ en. c.entry a ∷ drop k (entries c.entry ids) ≡ entries en (a ∷ without a ids))
              (sym (move_to_head-entry a c))
              (ap (◌∷◌ (c.entry a)) (drop-entries c.entry k a ids m.chain.distinct e));
        few = omega (arith, length-without a ids i, move_to_head-max_entries a c);
        some_allowed = omega (arith, move_to_head-max_entries a c);
      }

  evict_tail-Represents :
      (c : LruCache V) (b : ℕ) (ids : List ℕ)
      → Holds c (b ∷ ids)
      → length ids ≤ c.max_entries
      → 0 < c.max_entries
      → Represents (evict_tail c) (drop_last (entries c.entry (b ∷ ids)))
  unfolding evict_tail drop_node
  evict_tail-Represents c b ids m few some_allowed =
      let (a, e) = last_exists none b ids in
      let i = last_inside b a ids e in
      let k = (c.entry a).key in
      let h = drop_node-Holds a k c (b ∷ ids) i refl m in
      subst (λ o. Represents (evict_at o c) (drop_last (entries c.entry (b ∷ ids))))
        (sym (m.chain.from_tail ∙ e))
        (record {
          ids = without a (b ∷ ids);
          holds = record {
            chain = h.chain;
            looked = h.looked;
            unique = h.unique;
            counted = h.counted;
            below = h.below;
          };
          same = drop_last-entries c.entry a none b ids m.chain.distinct e;
          few = omega (arith, length-without a (b ∷ ids) i);
          some_allowed = some_allowed;
        })

  -- An entry too many is evicted.
  within_limit :
      (over : Bool) (c : LruCache V) (b : ℕ) (ids : List ℕ) (all : List (Entry V))
      → Holds c (b ∷ ids)
      → all ≡ entries c.entry (b ∷ ids)
      → length ids ≤ c.max_entries
      → (over ≡ false → suc (length ids) ≤ c.max_entries)
      → 0 < c.max_entries
      → Represents (if over then evict_tail c else c) (if over then drop_last all else all)
  within_limit true c b ids all m e few fit some_allowed =
      subst (λ es. Represents (evict_tail c) (drop_last es)) (sym e)
        (evict_tail-Represents c b ids m few some_allowed)
  within_limit false c b ids all m e few fit some_allowed = record {
    ids = b ∷ ids;
    holds = m;
    same = e;
    few = fit refl;
    some_allowed = some_allowed;
  }

  pub inserted-Represents :
      (now k : ℕ) (v : V) (ttl : ℕ) (c : LruCache V) (ids : List ℕ)
      → Holds c ids
      → length ids ≤ c.max_entries
      → 0 < c.max_entries
      → holder (key_of c.entry) k ids ≡ none
      → Represents (insert_new now k v ttl c) (
          Spec.set c.max_entries
            (record { key = k; value = v; stored_at = now; ttl_ms = ttl })
            (entries c.entry ids))
  unfolding insert_new
  inserted-Represents now k v ttl c ids m few some_allowed absent =
      let e : Entry V = record { key = k; value = v; stored_at = now; ttl_ms = ttl } in
      let d = with_new e c in
      let h = with_new-Holds e c ids (m.looked k ∙ absent) m in
      let shown : e ∷ drop k (entries c.entry ids) ≡ entries d.entry (c.made ∷ ids) =
        ap (◌∷◌ e) (drop-absent c.entry k ids absent)
        ∙ (ap (λ x. x ∷ entries c.entry ids) (sym (write_self c.entry c.made e))
            ∙ ap (◌∷◌ (d.entry c.made)) (
                agree-entries c.entry d.entry ids (λ a i.
                  sym (write_ne c.entry c.made a e (other_than a c.made (m.below a i)))))) in
      let all = e ∷ drop k (entries c.entry ids) in
      let long : length all ≡ d.keys.size =
        ap (λ es. suc (length es)) (drop-absent c.entry k ids absent)
        ∙ (ap suc (length-entries c.entry ids) ∙ sym h.counted) in
      subst
        (λ n.
          Represents (insert_new now k v ttl c)
            (if ltb c.max_entries n then drop_last all else all))
        (sym long)
        (within_limit (ltb c.max_entries d.keys.size) d c.made ids all h shown few
          (λ n. fits c.max_entries d.keys.size (suc (length ids)) n h.counted) some_allowed)
