-- ===== src/PriorityQueue/Counts.antt =====
-- How many entries of the array pass a test, before and after an operation.
use brass_runtime.Base.{
  ℕ, zero, suc, ◌+◌, ◌/◌, ◌<◌, ◌≤◌, Bool, true, false, not, ◌&&◌, ◌≡◌, refl, arith, ◌==◌,
  if◌then◌else◌, lt→ltb, Bool-cases, inl, inr, either_branch, ap, sym, ◌∙◌,
}
use brass_runtime.Links.{write, write_self, write_ne}
use brass_runtime.PriorityQueue.{
  Entry, PriorityQueue, GivenPriority, precedes, swap, bubble_up, sink_down, smallest, enqueue,
  remove_top_at, cancel_if, active_size, active_among, remove, removed_among,
}
use brass_runtime.PriorityQueue.Down.{least}

module _ {T : Type 0} where
  abbrev pub weight : (Entry T → Bool) → Entry T → ℕ
  weight p e = if p e then 1 else 0

  abbrev pub count : (Entry T → Bool) → (ℕ → Entry T) → ℕ → ℕ
  count p h zero = 0
  count p h (suc n) = count p h n + weight p (h n)

  count-write_out :
      (p : Entry T → Bool) (h : ℕ → Entry T) (n i : ℕ) (x : Entry T)
      → n ≤ i
      → count p (write h i x) n ≡ count p h n
  count-write_out p h zero i x l = refl
  count-write_out p h (suc n) i x l = omega (
    arith,
    count-write_out p h n i x (omega arith),
    ap (weight p) (write_ne h i n x (ground arith)),
  )

  pub count-write :
      (p : Entry T → Bool) (h : ℕ → Entry T) (n i : ℕ) (x : Entry T)
      → i < n
      → count p (write h i x) n + weight p (h i) ≡ count p h n + weight p x
  count-write p h zero i x l = absurd (omega arith)
  count-write p h (suc n) i x l = elim (Bool-cases (n == i)) [
    | inl t ↦
        let q : n ≡ i = ground arith in
        omega (
          arith,
          count-write_out p h n i x (omega (arith, q)),
          ap (λ y. weight p (write h i x y)) q,
          ap (weight p) (write_self h i x),
          ap (λ y. weight p (h y)) q,
        )
    | inr f ↦
        omega (arith, count-write p h n i x (ground arith), ap (weight p) (write_ne h i n x f))
  ]

  count-swap :
      (p : Entry T → Bool) (h : ℕ → Entry T) (n i j : ℕ)
      → i < n
      → j < n
      → count p (swap h i j) n ≡ count p h n
  count-swap p h n i j l m =
      let once = write h i (h j) in
      let there : once j ≡ h j = either_branch (λ y. y ≡ h j) (j == i) (λ _. refl) (λ _. refl) in
      omega
        (arith, count-write p h n i (h j) l, count-write p once n j (h i) m, ap (weight p) there)

  count-bubble_up :
      (p : Entry T → Bool) (fuel : ℕ) (h : ℕ → Entry T) (n i : ℕ)
      → i < n
      → count p (bubble_up fuel h i) n ≡ count p h n
  unfolding bubble_up
  count-bubble_up p zero h n i l = refl
  count-bubble_up p (suc fuel) h n zero l = refl
  count-bubble_up p (suc fuel) h n (suc j) l =
      either_branch (λ (g : ℕ → Entry T). count p g n ≡ count p h n)
        (precedes (h (suc j)) (h (j / 2)))
        (λ _.
          count-bubble_up p fuel (swap h (suc j) (j / 2)) n (j / 2) (omega arith)
          ∙ count-swap p h n (suc j) (j / 2) l (omega arith))
        (λ _. refl)

  count-sink_down :
      (p : Entry T → Bool) (fuel : ℕ) (h : ℕ → Entry T) (n k : ℕ)
      → count p (sink_down fuel h n k) n ≡ count p h n
  unfolding sink_down
  count-sink_down p zero h n k = refl
  count-sink_down p (suc fuel) h n k =
      let s = smallest h n k in
      let below = count-sink_down p fuel (swap h k s) n s in
      either_branch (λ (g : ℕ → Entry T). count p g n ≡ count p h n) (s == k) (λ _. refl)
        (λ d. elim (least h n k).place [
          | inl e ↦ absurd (ground (arith, d, e))
          | inr (i, e, f, l) ↦ below ∙ count-swap p h n k s (omega (arith, e, f, l)) l
        ])

  -- An enqueue adds the new entry to the others.
  pub count-enqueue :
      (p : Entry T → Bool) (v : T) (g : GivenPriority) (q : PriorityQueue T)
      → count p (enqueue v g q).1.heap (enqueue v g q).1.len
        ≡ count p q.heap q.len + weight p (enqueue v g q).0
  unfolding enqueue
  count-enqueue p v g q =
      let e = (enqueue v g q).0 in
      let h = write q.heap q.len e in
      omega (
        arith,
        count-bubble_up p q.len h (suc q.len) q.len (omega arith),
        count-write_out p q.heap q.len q.len e (omega arith),
        ap (weight p) (write_self q.heap q.len e),
      )

  -- The top is taken out, and all others stay.
  pub count-remove_top :
      (p : Entry T → Bool) (n : ℕ) (q : PriorityQueue T)
      → count p (remove_top_at (suc n) q).heap (remove_top_at (suc n) q).len + weight p (q.heap 0)
        ≡ count p q.heap (suc n)
  unfolding remove_top_at
  count-remove_top p n q =
      either_branch
        (λ (r : PriorityQueue T).
          count p r.heap r.len + weight p (q.heap 0) ≡ count p q.heap (suc n))
        (n == 0)
        (λ t.
          let z : n ≡ 0 = ground arith in ap (λ x. count p q.heap n + weight p (q.heap x)) (sym z))
        (λ f. omega (
          arith,
          count-sink_down p n (write q.heap 0 (q.heap n)) n 0,
          count-write p q.heap n 0 (q.heap n) (ground arith),
        ))

  flagged :
      (x : Entry T) (b c : Bool) (r a s : ℕ)
      → c ≡ (cancel_if (not x.cancelled && b) x).cancelled
      → r + a ≡ s
      → (if not x.cancelled && b then r + 1 else r) + (a + (if c then 0 else 1))
        ≡ s + (if x.cancelled then 0 else 1)
  flagged x true c r a s e h = elim (Bool-cases x.cancelled) [
    | inl t ↦ simp t (ground (arith, e, h))
    | inr f ↦ simp f (ground (arith, e, h))
  ]
  flagged x false c r a s e h = elim (Bool-cases x.cancelled) [
    | inl t ↦ simp t (ground (arith, e, h))
    | inr f ↦ simp f (ground (arith, e, h))
  ]

  -- How many entries are cancelled by a `remove`.
  removed-count :
      (p : Entry T → Bool) (h g : ℕ → Entry T) (n m : ℕ)
      → n ≤ m
      → ((i : ℕ) → i < m → g i ≡ cancel_if (not (h i).cancelled && p (h i)) (h i))
      → removed_among p h n + active_among g n ≡ active_among h n
  removed-count p h g zero m l same = refl
  removed-count p h g (suc n) m l same =
      let before = removed-count p h g n m (omega arith) same in
      let e = ap (λ (x : Entry T). x.cancelled) (same n (omega arith)) in
      flagged (h n) (p (h n)) (g n).cancelled (removed_among p h n) (active_among g n)
        (active_among h n) e before

  -- `remove` cancels as many entries as it answers: they are active before and not after.
  pub remove-active_size :
      (p : Entry T → Bool) (q : PriorityQueue T)
      → (remove p q).0 + active_size (remove p q).1 ≡ active_size q
  unfolding remove
  remove-active_size p q =
      removed-count p q.heap (remove p q).1.heap q.len q.len (omega arith) (λ i l.
        ap (λ b. cancel_if (b && (not (q.heap i).cancelled && p (q.heap i))) (q.heap i))
          (lt→ltb i q.len l))
