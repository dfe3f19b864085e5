-- ===== src/PriorityQueue/Served.antt =====
-- What `dequeue` takes out.
use brass_runtime.Base.{
  ℕ, zero, suc, ◌+◌, ◌<◌, Bool, true, false, not, ◌&&◌, Option, none, some, ◌≡◌, refl, arith, ◌==◌,
  Bool-cases, inl, inr, either_branch, ap,
}
use brass_runtime.PriorityQueue.{
  Entry, PriorityQueue, precedes, remove_top, remove_top_at, dequeue, dequeue_loop, peek, peek_loop,
}
use brass_runtime.PriorityQueue.Order.{top-Le}
use brass_runtime.PriorityQueue.Valid.{IsOrdered, remove_top-IsOrdered}
use brass_runtime.PriorityQueue.Counts.{weight, count, count-remove_top}

and_false : (b : Bool) {c : Bool} → c ≡ false → (b && c) ≡ false
and_false true h = h
and_false false h = refl

module _ {T : Type 0} where
  -- The test of the entries that are active and pass another test.
  abbrev pub active_and : (Entry T → Bool) → Entry T → Bool
  active_and p e = not e.cancelled && p e

  abbrev any : Entry T → Bool
  any e = true

  -- Either no entry is active; or the entry is active, no active one comes before it, and it is all
  -- that the active ones lose, whatever test they are counted with.
  abbrev pub Serves : PriorityQueue T → Option (Entry T) × PriorityQueue T → Type 0
  Serves q (none, r) = count (active_and any) q.heap q.len ≡ 0
  Serves q (some e, r) =
      (e.cancelled ≡ false)
      × (count (active_and (λ x. precedes x e)) q.heap q.len ≡ 0)
      × ((p : Entry T → Bool)
          → count (active_and p) r.heap r.len + weight p e ≡ count (active_and p) q.heap q.len)

  count-none :
      (p : Entry T → Bool) (h : ℕ → Entry T) (n : ℕ)
      → ((i : ℕ) → i < n → p (h i) ≡ false)
      → count p h n ≡ 0
  count-none p h zero none_passes = refl
  count-none p h (suc n) none_passes =
      ground
        (arith, none_passes n (omega arith), count-none p h n (λ i l. none_passes i (omega arith)))

  -- The top leaves, and all others stay.
  topless :
      (p : Entry T → Bool) (q : PriorityQueue T)
      → (q.len == 0) ≡ false
      → count p (remove_top q).heap (remove_top q).len + weight p (q.heap 0) ≡ count p q.heap q.len
  unfolding remove_top
  topless p q n = from q.len (ground arith)
    where
      from :
          (m : ℕ)
          → 0 < m
          → count p (remove_top_at m q).heap (remove_top_at m q).len + weight p (q.heap 0)
            ≡ count p q.heap m
      from zero l = absurd (omega arith)
      from (suc m) l = count-remove_top p m q

  length-remove_top : (q : PriorityQueue T) → (q.len == 0) ≡ false → suc (remove_top q).len ≡ q.len
  unfolding remove_top remove_top_at
  length-remove_top q n = from q.len (ground arith)
    where
      from : (m : ℕ) → 0 < m → suc (remove_top_at m q).len ≡ m
      from zero l = absurd (omega arith)
      from (suc m) l =
          either_branch (λ (r : PriorityQueue T). suc r.len ≡ suc m) (m == 0) (λ _. refl)
            (λ _. refl)

  weight-cancelled :
      (p : Entry T → Bool) (x : Entry T) → x.cancelled ≡ true → weight (active_and p) x ≡ 0
  weight-cancelled p x c = simp c refl

  weight-active :
      (p : Entry T → Bool) (x : Entry T)
      → x.cancelled ≡ false
      → weight (active_and p) x ≡ weight p x
  weight-active p x c = simp c refl

  -- A cancelled top makes no difference to what is served.
  past_cancelled :
      (q : PriorityQueue T) (r : Option (Entry T) × PriorityQueue T)
      → (q.len == 0) ≡ false
      → (q.heap 0).cancelled ≡ true
      → Serves (remove_top q) r
      → Serves q r
  past_cancelled q (none, r) n c h =
      omega (arith, topless (active_and any) q n, weight-cancelled any (q.heap 0) c, h)
  past_cancelled q (some e, r) n c (a, b, h) = (
    a,
    omega (
      arith,
      topless (active_and (λ x. precedes x e)) q n,
      weight-cancelled (λ x. precedes x e) (q.heap 0) c,
      b,
    ),
    λ p. omega (arith, topless (active_and p) q n, weight-cancelled p (q.heap 0) c, h p),
  )

  dequeue_loop-Serves :
      (fuel : ℕ) (q : PriorityQueue T) → q.len < fuel → IsOrdered q → Serves q (dequeue_loop fuel q)
  unfolding dequeue_loop
  dequeue_loop-Serves zero q l o = absurd (omega arith)
  dequeue_loop-Serves (suc fuel) q l o =
      either_branch (Serves q) (q.len == 0)
        (λ t. let z : q.len ≡ 0 = ground arith in ap (λ m. count (active_and any) q.heap m) z)
        (λ n.
          either_branch (Serves q) (q.heap 0).cancelled
            (λ c. past_cancelled q (dequeue_loop fuel (remove_top q)) n c (
              dequeue_loop-Serves fuel (remove_top q) (omega (arith, l, length-remove_top q n))
                (remove_top-IsOrdered q o)))
            (λ c. (
              c,
              count-none (active_and (λ x. precedes x (q.heap 0))) q.heap q.len
                  (λ i b. and_false (not (q.heap i).cancelled) (top-Le q.heap q.len i o b)),
              λ p. omega (arith, topless (active_and p) q n, weight-active p (q.heap 0) c),
            )))

  pub record IsServed (q : PriorityQueue T) (r : Option (Entry T) × PriorityQueue T) : Type 0 where
    pub served : Serves q r

  -- From a heap, `dequeue` takes out the active entry that comes first, by priority and then by
  -- arrival, and all other active entries stay; it takes none only if none is active.
  pub dequeue-IsServed : (q : PriorityQueue T) → IsOrdered q → IsServed q (dequeue q)
  unfolding dequeue
  dequeue-IsServed q o = record { served = dequeue_loop-Serves (suc q.len) q (omega arith) o }

  peek_loop-dequeue_loop :
      (fuel : ℕ) (q : PriorityQueue T) → (peek_loop fuel q).0 ≡ (dequeue_loop fuel q).0
  unfolding peek_loop dequeue_loop
  peek_loop-dequeue_loop zero q = refl
  peek_loop-dequeue_loop (suc fuel) q = elim (Bool-cases (q.len == 0)) [
    | inl t ↦ simp t refl
    | inr n ↦ elim (Bool-cases (q.heap 0).cancelled) [
      | inl c ↦ simp (n, c) (peek_loop-dequeue_loop fuel (remove_top q))
      | inr c ↦ simp (n, c) refl
    ]
  ]

  dequeue-peek_loop :
      (fuel : ℕ) (q : PriorityQueue T)
      → q.len < fuel
      → dequeue (peek_loop fuel q).1 ≡ dequeue_loop fuel q
  unfolding peek_loop dequeue_loop dequeue
  dequeue-peek_loop zero q l = absurd (omega arith)
  dequeue-peek_loop (suc fuel) q l = elim (Bool-cases (q.len == 0)) [
    | inl t ↦ simp t refl
    | inr n ↦ elim (Bool-cases (q.heap 0).cancelled) [
      | inl c ↦
          simp (n, c)
            (dequeue-peek_loop fuel (remove_top q) (omega (arith, l, length-remove_top q n)))
      | inr c ↦ simp (n, c) refl
    ]
  ]

  -- `peek` shows what `dequeue` takes out, and a `dequeue` after it takes and leaves the same.
  pub dequeue-peek :
      (q : PriorityQueue T) → ((peek q).0 ≡ (dequeue q).0) × (dequeue (peek q).1 ≡ dequeue q)
  unfolding peek dequeue
  dequeue-peek q =
      (peek_loop-dequeue_loop (suc q.len) q, dequeue-peek_loop (suc q.len) q (omega arith))
