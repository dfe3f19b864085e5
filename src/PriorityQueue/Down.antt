-- ===== src/PriorityQueue/Down.antt =====
-- The loop of `sinkDown`, on a heap whose first entry may come too early.
use brass_runtime.Base.{
  ℕ, zero, suc, ◌+◌, ◌*◌, ◌/◌, ◌<◌, ◌≤◌, true, false, ◌≡◌, ◌≢◌, ◌⊎◌, refl, arith, ◌==◌, ltb,
  Bool-cases, inl, inr, either_branch, ap, sym, subst, ◌∙◌, ◌&&◌,
}
use brass_runtime.PriorityQueue.{Entry, precedes, swap, sink_down, smallest, smaller_child}
use brass_runtime.PriorityQueue.Order.{
  Le, Le-refl, Le-trans, Le-precedes, IsHeap, swap_second, swap_first, swap_other, Le-by,
  ExceptBelow, Across,
}

same_index : (a b : ℕ) → (a == b) ≡ true → a ≡ b
same_index a b t = ground arith

different_index : (a b : ℕ) → (a == b) ≡ false → a ≢ b
different_index a b t e = ground arith

module _ {T : Type 0} where
  -- What is known of the index that `sinkDown` goes on with.
  pub record IsLeast (h : ℕ → Entry T) (n k s : ℕ) : Type 0 where
    pub place : (s ≡ k) ⊎ (i : ℕ) × (s ≡ suc i) × (i / 2 ≡ k) × (s < n)
    pub over_top : Le (h s) (h k)
    pub over_children : (j : ℕ) → suc j < n → j / 2 ≡ k → Le (h s) (h (suc j))

  -- One of the two children is compared with the best so far.
  smaller-Le :
      (h : ℕ → Entry T) (n c i : ℕ)
      → Le (h (smaller_child h n c i)) (h i) × (c < n → Le (h (smaller_child h n c i)) (h c))
  smaller-Le h n c i = elim (Bool-cases (ltb c n && precedes (h c) (h i))) [
    | inl t ↦ simp t (Le-precedes (h c) (h i) (ground (arith, t)), λ _. Le-refl (h c))
    | inr f ↦ simp f (Le-refl (h i), λ l. ground (arith, f, l))
  ]

  smaller-place :
      (h : ℕ → Entry T) (n c i : ℕ)
      → (smaller_child h n c i ≡ i) ⊎ (smaller_child h n c i ≡ c) × (c < n)
  smaller-place h n c i = elim (Bool-cases (ltb c n && precedes (h c) (h i))) [
    | inl t ↦ simp t (inr (refl, ground (arith, t)))
    | inr f ↦ simp f (inl refl)
  ]

  pub least : (h : ℕ → Entry T) (n k : ℕ) → IsLeast h n k (smallest h n k)
  least h n k =
      let a = smaller_child h n (2 * k + 1) k in
      let (a1, a2) = smaller-Le h n (2 * k + 1) k in
      let s = smallest h n k in
      let (s1, s2) = smaller-Le h n (2 * k + 2) a in
      record {
        place = elim (smaller-place h n (2 * k + 2) a) [
          | inr (e, l) ↦
              inr (2 * k + 1, omega (arith, e), omega arith, subst (λ x. x < n) (sym e) l)
          | inl e ↦ elim (smaller-place h n (2 * k + 1) k) [
            | inr (f, l) ↦
                inr (2 * k, omega (arith, e, f), omega arith, subst (λ x. x < n) (sym (e ∙ f)) l)
            | inl f ↦ inl (e ∙ f)
          ]
        ];
        over_top = Le-trans (h s) (h a) (h k) s1 a1;
        over_children = λ j b e. elim (Bool-cases (j == 2 * k)) [
          | inl t ↦
              let q : suc j ≡ 2 * k + 1 = ground arith in
              subst (λ x. Le (h s) (h x)) (sym q)
                (Le-trans (h s) (h a) (h (2 * k + 1)) s1 (a2 (omega arith)))
          | inr f ↦
              let q : suc j ≡ 2 * k + 2 = ground arith in
              subst (λ x. Le (h s) (h x)) (sym q) (s2 (omega arith))
        ];
      }

  -- The entry changes places with the child that comes first.
  down-ExceptBelow :
      (h : ℕ → Entry T) (n k i : ℕ)
      → i / 2 ≡ k
      → suc i < n
      → Le (h (suc i)) (h k)
      → ((j : ℕ) → suc j < n → j / 2 ≡ k → Le (h (suc i)) (h (suc j)))
      → ExceptBelow h n k
      → Across h n k
      → ExceptBelow (swap h k (suc i)) n (suc i)
  down-ExceptBelow h n k i e l top children ex ac j b apart =
      let new = swap h k (suc i) in
      let at_k : new k ≡ h (suc i) = swap_first h k (suc i) (ground arith) in
      elim (Bool-cases (suc j == suc i)) [
        | inl t ↦
            let q : j ≡ i = ground arith in
            Le-by (new (j / 2)) (new (suc j)) (h (suc i)) (h k)
              (ap (λ x. new (x / 2)) q ∙ (ap new e ∙ at_k))
              (ap (λ x. new (suc x)) q ∙ swap_second h k (suc i)) top
        | inr n1 ↦ elim (Bool-cases (j / 2 == k)) [
          | inl t ↦
              let q : j / 2 ≡ k = ground arith in
              Le-by (new (j / 2)) (new (suc j)) (h (suc i)) (h (suc j)) (ap new q ∙ at_k)
                (swap_other h k (suc i) (suc j) (ground arith) n1) (children j b q)
          | inr n2 ↦
              let above = swap_other h k (suc i) (j / 2) n2 apart in
              elim (Bool-cases (suc j == k)) [
                | inl t ↦
                    let q : k ≡ suc j = ground arith in
                    Le-by (new (j / 2)) (new (suc j)) (h (j / 2)) (h (suc i)) above
                      (ap new (sym q) ∙ at_k) (ac j i q l e)
                | inr n3 ↦
                    Le-by (new (j / 2)) (new (suc j)) (h (j / 2)) (h (suc j)) above
                      (swap_other h k (suc i) (suc j) n3 n1) (ex j b n2)
              ]
        ]
      ]

  down-Across :
      (h : ℕ → Entry T) (n k i : ℕ)
      → i / 2 ≡ k
      → ExceptBelow h n k
      → Across (swap h k (suc i)) n (suc i)
  down-Across h n k i e ex a j q b s =
      let new = swap h k (suc i) in
      let at_k : new k ≡ h (suc i) = swap_first h k (suc i) (ground arith) in
      let above : a / 2 ≡ k = omega (arith, q, e) in
      Le-by (new (a / 2)) (new (suc j)) (h (suc i)) (h (suc j)) (ap new above ∙ at_k)
        (swap_other h k (suc i) (suc j) (ground arith) (ground arith))
        (subst (λ x. Le (h x) (h (suc j))) s (ex j b (ground arith)))

  pub sink_down-IsHeap :
      (fuel : ℕ) (h : ℕ → Entry T) (n k : ℕ)
      → n ≤ fuel + k
      → ExceptBelow h n k
      → Across h n k
      → IsHeap (sink_down fuel h n k) n
  unfolding sink_down
  sink_down-IsHeap zero h n k f ex ac = λ j b. ex j b (ground arith)
  sink_down-IsHeap (suc fuel) h n k f ex ac =
      let m = least h n k in
      either_branch (λ (g : ℕ → Entry T). IsHeap g n) (smallest h n k == k)
        (λ t j b. elim (Bool-cases (j / 2 == k)) [
          | inl t' ↦
              let q : j / 2 ≡ k = ground arith in
              let p : smallest h n k ≡ k = same_index (smallest h n k) k t in
              subst (λ x. Le (h x) (h (suc j))) (p ∙ sym q) (m.over_children j b q)
          | inr n1 ↦ ex j b n1
        ])
        (λ d. elim m.place [
          | inl p ↦ absurd (different_index (smallest h n k) k d p)
          | inr (i, p, e, l) ↦
              subst (λ s. IsHeap (sink_down fuel (swap h k s) n s) n) (sym p)
                (sink_down-IsHeap fuel (swap h k (suc i)) n (suc i) (omega (arith, e))
                  (down-ExceptBelow h n k i e (subst (λ x. x < n) p l)
                    (subst (λ x. Le (h x) (h k)) p m.over_top)
                    (λ j b r. subst (λ x. Le (h x) (h (suc j))) p (m.over_children j b r)) ex ac)
                  (down-Across h n k i e ex))
        ])
