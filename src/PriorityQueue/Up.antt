-- ===== src/PriorityQueue/Up.antt =====
-- The loop of `bubbleUp`, on a heap whose last entry may come too late.
use brass_runtime.Base.{
  ℕ, zero, suc, ◌/◌, ◌<◌, ◌≤◌, true, false, ◌≡◌, refl, arith, ◌==◌, Bool-cases, inl, inr,
  either_branch, ap, sym, subst, ◌∙◌,
}
use brass_runtime.PriorityQueue.{Entry, precedes, swap, bubble_up}
use brass_runtime.PriorityQueue.Order.{
  Le, Le-trans, Le-precedes, IsHeap, swap_second, swap_first, swap_other, Le-by, Except, Across,
}

module _ {T : Type 0} where
  -- The entry changes places with its parent.
  up-Except :
      (h : ℕ → Entry T) (n i : ℕ)
      → suc i < n
      → precedes (h (suc i)) (h (i / 2)) ≡ true
      → Except h n (suc i)
      → Across h n (suc i)
      → Except (swap h (suc i) (i / 2)) n (i / 2)
  up-Except h n i l c ex ac j b apart =
      let p = i / 2 in
      let new = swap h (suc i) p in
      let differ : (suc i == p) ≡ false = ground arith in
      elim (Bool-cases (j == i)) [
        | inl t ↦
            let s : j ≡ i = ground arith in
            let first : new (suc j) ≡ h p =
              ap (λ x. new (suc x)) s ∙ swap_first h (suc i) p differ in
            let second : new (j / 2) ≡ h (suc i) =
              ap (λ x. new (x / 2)) s ∙ swap_second h (suc i) p in
            Le-by (new (j / 2)) (new (suc j)) (h (suc i)) (h p) second first
              (Le-precedes (h (suc i)) (h p) c)
        | inr n1 ↦
            let kept = swap_other h (suc i) p (suc j) (ground arith) apart in
            elim (Bool-cases (j / 2 == suc i)) [
              | inl t ↦
                  let s : j / 2 ≡ suc i = ground arith in
                  Le-by (new (j / 2)) (new (suc j)) (h p) (h (suc j))
                    (ap new s ∙ swap_first h (suc i) p differ) kept (ac i j refl b s)
              | inr n2 ↦ elim (Bool-cases (j / 2 == p)) [
                | inl t ↦
                    let s : j / 2 ≡ p = ground arith in
                    Le-by (new (j / 2)) (new (suc j)) (h (suc i)) (h (suc j))
                      (ap new s ∙ swap_second h (suc i) p) kept
                      (Le-trans (h (suc i)) (h p) (h (suc j)) (Le-precedes (h (suc i)) (h p) c)
                        (subst (λ x. Le (h x) (h (suc j))) s (ex j b (ground arith))))
                | inr n3 ↦
                    Le-by (new (j / 2)) (new (suc j)) (h (j / 2)) (h (suc j))
                      (swap_other h (suc i) p (j / 2) n2 n3) kept (ex j b (ground arith))
              ]
            ]
      ]

  up-Across :
      (h : ℕ → Entry T) (n i : ℕ)
      → suc i < n
      → Except h n (suc i)
      → Across (swap h (suc i) (i / 2)) n (i / 2)
  up-Across h n i l ex a j q b s =
      let p = i / 2 in
      let new = swap h (suc i) p in
      let above = swap_other h (suc i) p (a / 2) (ground arith) (ground arith) in
      let up : Le (h (a / 2)) (h p) =
        subst (λ x. Le (h (a / 2)) (h x)) (sym q) (ex a (omega arith) (ground arith)) in
      elim (Bool-cases (suc j == suc i)) [
        | inl t ↦
            let e : j ≡ i = ground arith in
            let first : new (suc j) ≡ h p =
              ap (λ x. new (suc x)) e ∙ swap_first h (suc i) p (ground arith) in
            Le-by (new (a / 2)) (new (suc j)) (h (a / 2)) (h p) above first up
        | inr n1 ↦
            let kept = swap_other h (suc i) p (suc j) n1 (ground arith) in
            let down : Le (h p) (h (suc j)) = subst (λ x. Le (h x) (h (suc j))) s (ex j b n1) in
            Le-by (new (a / 2)) (new (suc j)) (h (a / 2)) (h (suc j)) above kept
              (Le-trans (h (a / 2)) (h p) (h (suc j)) up down)
      ]

  pub bubble_up-IsHeap :
      (fuel : ℕ) (h : ℕ → Entry T) (n i : ℕ)
      → i ≤ fuel
      → i < n
      → Except h n i
      → Across h n i
      → IsHeap (bubble_up fuel h i) n
  unfolding bubble_up
  bubble_up-IsHeap zero h n zero f l ex ac = λ j b. ex j b (ground arith)
  bubble_up-IsHeap zero h n (suc i) f l ex ac = absurd (omega arith)
  bubble_up-IsHeap (suc fuel) h n zero f l ex ac = λ j b. ex j b (ground arith)
  bubble_up-IsHeap (suc fuel) h n (suc i) f l ex ac =
      either_branch (λ (g : ℕ → Entry T). IsHeap g n) (precedes (h (suc i)) (h (i / 2)))
        (λ c.
          bubble_up-IsHeap fuel (swap h (suc i) (i / 2)) n (i / 2) (omega arith) (omega arith)
            (up-Except h n i l c ex ac) (up-Across h n i l ex))
        (λ c j b. elim (Bool-cases (j == i)) [
          | inl t ↦
              let e : j ≡ i = ground arith in subst (λ x. Le (h (x / 2)) (h (suc x))) (sym e) c
          | inr o ↦ ex j b (ground arith)
        ])
