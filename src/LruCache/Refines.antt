-- ===== src/LruCache/Refines.antt =====
-- The operations of a cache beside those of the list of entries that it represents.
use brass_runtime.Base.{
  ℕ, suc, ◌<◌, ◌≤◌, List, ◌∷◌, Option, none, some, if◌then◌else◌, ◌==◌, ◌≡◌, is_some, length, arith,
  refl, Bool-cases, inl, inr, ap, sym, ◌∙◌, subst, ltb,
}
use mathlib.Core.Option
use brass_runtime.Links.{write, without, Distinct, write_self, write_ne}
use brass_runtime.Links.Unlink.{without-Distinct}
use brass_runtime.LruCache.{
  Entry, LruCache, get_at, set_at, delete_at, evict_at, insert_new, evict_tail, move_to_head,
  drop_node, is_expired, new_cache,
}
use brass_runtime.LruCache
use brass_runtime.LruCache.Keys.{holder, holder-inside, length-without, holder-agree}
use brass_runtime.LruCache.Holds.{Holds, key_of, rewritten-Holds, key_of-write_ne}
use brass_runtime.LruCache.Spec.{
  find, drop, drop_last, Command, Answer, obey, obey_all, promise, promise_all,
}
use brass_runtime.LruCache.Spec
use brass_runtime.LruCache.Entries.{
  entries, length-entries, find-entries, drop-absent, drop-entries, agree-entries, apart,
}
use brass_runtime.LruCache.Represents.{
  Represents, Alike, clear-Represents, dropped-Represents, moved-Represents, inserted-Represents,
}

module _ {V : Type 0} where
  abbrev GetsAlike : ℕ → ℕ → LruCache V → List (Entry V) → Type 0
  GetsAlike now k c es = Alike (LruCache.get now k c) (Spec.get now k es)

  get-found :
      (now k : ℕ) (c : LruCache V) (ids : List ℕ) (o : Option ℕ)
      → Holds c ids
      → length ids ≤ c.max_entries
      → 0 < c.max_entries
      → holder (key_of c.entry) k ids ≡ o
      → Represents c (entries c.entry ids)
      → Alike (get_at o now k c) (Spec.use_found (Option.map c.entry o) now k (entries c.entry ids))
  unfolding get_at
  get-found now k c ids none m few allowed e r = (refl, r)
  get-found now k c ids (some a) m few allowed e r =
      elim (Bool-cases (is_expired now (c.entry a))) [
        | inl t ↦ simp t (refl, dropped-Represents k a c ids m few allowed e)
        | inr n ↦ simp n (refl, moved-Represents k a c ids m few allowed e)
      ]

  pub get-Alike :
      (now k : ℕ) (c : LruCache V) (es : List (Entry V)) → Represents c es → GetsAlike now k c es
  unfolding LruCache.get
  get-Alike now k c es r =
      let shown = find-entries c.entry k r.ids in
      subst (GetsAlike now k c) (sym r.same) (
        subst (λ o. Alike (get_at o now k c) (Spec.get now k (entries c.entry r.ids)))
          (sym (r.holds.looked k))
          (subst
            (λ o.
              Alike (get_at (holder (key_of c.entry) k r.ids) now k c)
                (Spec.use_found o now k (entries c.entry r.ids)))
            (sym shown)
            (get-found now k c r.ids (holder (key_of c.entry) k r.ids) r.holds r.few r.some_allowed
              refl (subst (Represents c) r.same r))))

  delete-found :
      (k : ℕ) (c : LruCache V) (ids : List ℕ) (o : Option ℕ)
      → Holds c ids
      → length ids ≤ c.max_entries
      → 0 < c.max_entries
      → holder (key_of c.entry) k ids ≡ o
      → Represents c (entries c.entry ids)
      → Alike (delete_at o k c) (is_some (Option.map c.entry o), drop k (entries c.entry ids))
  unfolding delete_at
  delete-found k c ids none m few allowed e r =
      (refl, subst (Represents c) (sym (drop-absent c.entry k ids e)) r)
  delete-found k c ids (some a) m few allowed e r =
      (refl, dropped-Represents k a c ids m few allowed e)

  delete-Alike :
      (k : ℕ) (c : LruCache V) (es : List (Entry V))
      → Represents c es
      → Alike (LruCache.delete k c) (Spec.delete k es)
  unfolding LruCache.delete
  delete-Alike k c es r =
      let shown = find-entries c.entry k r.ids in
      subst (λ es. Alike (LruCache.delete k c) (Spec.delete k es)) (sym r.same)
        (subst (λ o. Alike (delete_at o k c) (Spec.delete k (entries c.entry r.ids)))
          (sym (r.holds.looked k))
          (subst
            (λ o.
              Alike (delete_at (holder (key_of c.entry) k r.ids) k c)
                (is_some o, drop k (entries c.entry r.ids)))
            (sym shown)
            (delete-found k c r.ids (holder (key_of c.entry) k r.ids) r.holds r.few r.some_allowed
              refl (subst (Represents c) r.same r))))

  -- The entry that is written has the key of the one before.
  same_keys :
      (entry : ℕ → Entry V) (a b : ℕ) (e : Entry V)
      → e.key ≡ key_of entry a
      → key_of (write entry a e) b ≡ key_of entry b
  same_keys entry a b e s = elim (Bool-cases (b == a)) [
    | inl t ↦
        let q : b ≡ a = ground arith in
        ap (key_of (write entry a e)) q
        ∙ (ap (λ (x : Entry V). x.key) (write_self entry a e) ∙ (s ∙ ap (key_of entry) (sym q)))
    | inr n ↦ key_of-write_ne entry a b e n
  ]

  dropped_alike :
      (entry : ℕ → Entry V) (k a : ℕ) (e : Entry V) (ids : List ℕ)
      → Distinct ids
      → holder (key_of (write entry a e)) k ids ≡ some a
      → holder (key_of entry) k ids ≡ some a
      → drop k (entries (write entry a e) ids) ≡ drop k (entries entry ids)
  dropped_alike entry k a e ids d f g =
      drop-entries (write entry a e) k a ids d f
      ∙ (agree-entries (write entry a e) entry (without a ids)
            (λ b i. write_ne entry a b e (apart b a (without a ids) i (without-Distinct a ids d).1))
          ∙ sym (drop-entries entry k a ids d g))

  kept_all :
      (most : ℕ) (all : List (Entry V)) (n : ℕ)
      → length all ≡ n
      → n ≤ most
      → (if ltb most (length all) then drop_last all else all) ≡ all
  kept_all most all n e l = elim (Bool-cases (ltb most (length all))) [
    | inl t ↦ absurd (ground arith)
    | inr f ↦ simp f refl
  ]

  set-found :
      (now k : ℕ) (v : V) (ttl : ℕ) (c : LruCache V) (ids : List ℕ) (o : Option ℕ)
      → Holds c ids
      → length ids ≤ c.max_entries
      → 0 < c.max_entries
      → holder (key_of c.entry) k ids ≡ o
      → Represents (set_at o now k v ttl c) (
          Spec.set c.max_entries
            (record { key = k; value = v; stored_at = now; ttl_ms = ttl })
            (entries c.entry ids))
  unfolding set_at
  set-found now k v ttl c ids none m few allowed e =
      inserted-Represents now k v ttl c ids m few allowed e
  set-found now k v ttl c ids (some a) m few allowed e =
      let (i, s) = holder-inside (key_of c.entry) k a ids e in
      let fresh : Entry V = record (c.entry a) { value = v; stored_at = now; ttl_ms = ttl } in
      let new : Entry V = record { key = k; value = v; stored_at = now; ttl_ms = ttl } in
      let d : LruCache V = record c { entry = write c.entry a fresh } in
      let keys = λ (b : ℕ). same_keys c.entry a b fresh refl in
      let h = rewritten-Holds d.entry c ids (λ b i. keys b) m in
      let found = holder-agree (key_of d.entry) (key_of c.entry) k ids (λ b i. keys b) ∙ e in
      let written : d.entry a ≡ new =
        write_self c.entry a fresh
        ∙ ap (λ (j : ℕ). record { key = j; value = v; stored_at = now; ttl_ms = ttl }) s in
      let others = dropped_alike c.entry k a fresh ids m.chain.distinct found e in
      let all = new ∷ drop k (entries c.entry ids) in
      let short : length all ≡ length ids =
        ap (λ es. suc (length es)) (drop-entries c.entry k a ids m.chain.distinct e)
        ∙ (ap suc (length-entries c.entry (without a ids)) ∙ sym (length-without a ids i)) in
      subst (Represents (move_to_head a d))
        (ap (λ x. x ∷ drop k (entries d.entry ids)) written
          ∙ (ap (◌∷◌ new) others ∙ sym (kept_all c.max_entries all (length ids) short few)))
        (moved-Represents k a d ids h few allowed found)

  pub set-Represents :
      (now k : ℕ) (v : V) (ttl : ℕ) (c : LruCache V) (es : List (Entry V))
      → Represents c es
      → Represents
          (LruCache.set now k v ttl c)
          (Spec.set c.max_entries (record { key = k; value = v; stored_at = now; ttl_ms = ttl }) es)
  unfolding LruCache.set
  set-Represents now k v ttl c es r =
      subst
        (λ es. Represents (LruCache.set now k v ttl c) (
          Spec.set c.max_entries (record { key = k; value = v; stored_at = now; ttl_ms = ttl }) es))
        (sym r.same)
        (set-found now k v ttl c r.ids (c.keys.lookup k) r.holds r.few r.some_allowed
          (sym (r.holds.looked k)))

  -- What becomes of one command.
  pub obey-Represents :
      (x : Command V) (c : LruCache V) (es : List (Entry V))
      → Represents c es
      → Alike (obey x c) (promise c.max_entries x es)
  unfolding obey promise
  obey-Represents (Spec.get_at_time now k) c es r =
      let (o, s) = get-Alike now k c es r in (ap Spec.found o, s)
  obey-Represents (Spec.set_at_time now k v ttl) c es r = (refl, set-Represents now k v ttl c es r)
  obey-Represents (Spec.delete_key k) c es r =
      let (o, s) = delete-Alike k c es r in (ap Spec.deleted o, s)
  obey-Represents Spec.clear_all c es r = (refl, clear-Represents c es r)
