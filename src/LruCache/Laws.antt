-- ===== src/LruCache/Laws.antt =====
-- A `get` after a `set`, and a `set` in a full cache.
use brass_runtime.Base.{
  ℕ, suc, ◌+◌, ◌<◌, true, List, [], ◌∷◌, ◌++◌, none, some, if◌then◌else◌, ◌==◌, ◌≡◌, length, arith,
  refl, ap, ◌∙◌, either_branch, subst, ltb, leb, Bool-cases, inl, inr,
}
use brass_runtime.LruCache.{Entry, LruCache, is_expired, get, set}
use brass_runtime.LruCache.Spec.{find, drop, drop_last}
use brass_runtime.LruCache.Spec
use brass_runtime.LruCache.Represents.{Represents}
use brass_runtime.LruCache.Refines.{get-Alike, set-Represents}

over_limit : (m n : ℕ) → n ≡ m → ltb m (suc n) ≡ true
over_limit m n h = ground arith

module _ {V : Type 0} where
  -- The entry that is set stays, even in a cache of one entry.
  set-first :
      (most : ℕ) (e : Entry V) (es : List (Entry V))
      → 0 < most
      → (rest : List (Entry V)) × (Spec.set most e es ≡ e ∷ rest)
  set-first most e es h = cut (drop e.key es)
    where
      cut :
          (es : List (Entry V))
          → (rest : List (Entry V)) × ((if ltb most (length (e ∷ es))
                then drop_last (e ∷ es)
                else e ∷ es)
              ≡ e ∷ rest)
      cut [] = ([], ground arith)
      cut (f ∷ es) =
          either_branch (λ all. (rest : List (Entry V)) × (all ≡ e ∷ rest))
            (ltb most (length (e ∷ f ∷ es))) (λ _. (drop_last (f ∷ es), refl)) (λ _. (f ∷ es, refl))

  get-first :
      (now k : ℕ) (e : Entry V) (rest : List (Entry V))
      → e.key ≡ k
      → (Spec.get now k (e ∷ rest)).0 ≡ (if is_expired now e then none else some e.value)
  get-first now k e rest s =
      let t : (e.key == k) ≡ true = ground (arith, s) in
      elim (Bool-cases (is_expired now e)) [ inl x ↦ simp (t, x) refl | inr x ↦ simp (t, x) refl ]

  -- A value that was set is found again until its time is over, and not after that.
  pub get-set :
      (c : LruCache V) (es : List (Entry V)) (now later k ttl : ℕ) (v : V)
      → Represents c es
      → (get later k (set now k v ttl c)).0 ≡ (if leb (now + ttl) later then none else some v)
  get-set c es now later k ttl v r =
      let e : Entry V = record { key = k; value = v; stored_at = now; ttl_ms = ttl } in
      let (rest, first) = set-first c.max_entries e es r.some_allowed in
      let found =
        get-Alike later k (set now k v ttl c) (Spec.set c.max_entries e es)
          (set-Represents now k v ttl c es r) in
      found.0 ∙ (ap (λ es. (Spec.get later k es).0) first ∙ get-first later k e rest refl)

  drop-fresh : (k : ℕ) (es : List (Entry V)) → find k es ≡ none → drop k es ≡ es
  drop-fresh k [] h = refl
  drop-fresh k (e ∷ es) h = elim (Bool-cases (e.key == k)) [
    | inl t ↦ absurd (ground (arith, h))
    | inr n ↦ simp n (ap (◌∷◌ e) (drop-fresh k es (ground (arith, h))))
  ]

  drop_last-snoc : (e f : Entry V) (es : List (Entry V)) → drop_last (e ∷ (es ++ (f ∷ []))) ≡ e ∷ es
  drop_last-snoc e f [] = refl
  drop_last-snoc e f (g ∷ es) = ap (◌∷◌ e) (drop_last-snoc g f es)

  -- A new key in a full cache takes the place of the entry that was used least recently: the other
  -- entries stay, in their order, after the new one.
  pub set-evicts :
      (c : LruCache V) (es : List (Entry V)) (oldest : Entry V) (now k ttl : ℕ) (v : V)
      → Represents c (es ++ (oldest ∷ []))
      → length (es ++ (oldest ∷ [])) ≡ c.max_entries
      → find k (es ++ (oldest ∷ [])) ≡ none
      → Represents
          (set now k v ttl c)
          ((record { key = k; value = v; stored_at = now; ttl_ms = ttl }) ∷ es)
  set-evicts c es oldest now k ttl v r full fresh =
      let e : Entry V = record { key = k; value = v; stored_at = now; ttl_ms = ttl } in
      let all = e ∷ (es ++ (oldest ∷ [])) in
      let over : ltb c.max_entries (length all) ≡ true =
        over_limit c.max_entries (length (es ++ (oldest ∷ []))) full in
      subst (Represents (set now k v ttl c))
        (ap (λ d. if ltb c.max_entries (suc (length d)) then drop_last (e ∷ d) else e ∷ d)
            (drop-fresh k (es ++ (oldest ∷ [])) fresh)
          ∙ (ap (λ b. if b then drop_last all else all) over ∙ drop_last-snoc e oldest es))
        (set-Represents now k v ttl c (es ++ (oldest ∷ [])) r)
