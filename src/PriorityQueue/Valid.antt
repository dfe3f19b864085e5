-- ===== src/PriorityQueue/Valid.antt =====
-- The order of the heap under each operation.
use brass_runtime.Base.{
  ℕ, zero, suc, ◌/◌, Bool, true, false, not, ◌&&◌, Option, ◌≡◌, refl, arith, ◌==◌, ltb,
  either_branch,
}
use brass_runtime.Links.{write, write_ne}
use brass_runtime.PriorityQueue.{
  Entry, PriorityQueue, new_queue, GivenPriority, enqueue, remove_top, remove_top_at, cancel_if,
  cancel, remove, dequeue, dequeue_loop, peek, peek_loop,
}
use brass_runtime.PriorityQueue.Order.{Le, Le-by, IsHeap}
use brass_runtime.PriorityQueue.Up.{bubble_up-IsHeap}
use brass_runtime.PriorityQueue.Down.{sink_down-IsHeap}

module _ {T : Type 0} where
  abbrev pub IsOrdered : PriorityQueue T → Type 0
  IsOrdered q = IsHeap q.heap q.len

  pub new_queue-IsOrdered : (memory : ℕ → Entry T) → IsOrdered (new_queue memory)
  new_queue-IsOrdered memory j b = absurd (omega arith)

  pub enqueue-IsOrdered :
      (v : T) (g : GivenPriority) (q : PriorityQueue T) → IsOrdered q → IsOrdered (enqueue v g q).1
  unfolding enqueue
  enqueue-IsOrdered v g q o =
      let e = (enqueue v g q).0 in
      let h = write q.heap q.len e in
      bubble_up-IsHeap q.len h (suc q.len) q.len (omega arith) (omega arith)
        (λ j b n.
          Le-by (h (j / 2)) (h (suc j)) (q.heap (j / 2)) (q.heap (suc j))
            (write_ne q.heap q.len (j / 2) e (ground arith)) (write_ne q.heap q.len (suc j) e n)
            (o j (ground arith)))
        (λ i j k b s. absurd (omega arith))

  remove_top_at-IsOrdered :
      (n : ℕ) (q : PriorityQueue T) → IsHeap q.heap n → q.len ≡ n → IsOrdered (remove_top_at n q)
  unfolding remove_top_at
  remove_top_at-IsOrdered zero q o e = λ j b. absurd (omega (arith, e))
  remove_top_at-IsOrdered (suc n) q o e =
      let h = write q.heap 0 (q.heap n) in
      either_branch IsOrdered (n == 0) (λ t j b. absurd (ground arith))
        (λ f.
          sink_down-IsHeap n h n 0 (omega arith)
            (λ j b apart.
              Le-by (h (j / 2)) (h (suc j)) (q.heap (j / 2)) (q.heap (suc j))
                (write_ne q.heap 0 (j / 2) (q.heap n) apart)
                (write_ne q.heap 0 (suc j) (q.heap n) (ground arith)) (o j (omega arith)))
            (λ i j z b s. absurd (omega arith)))

  pub remove_top-IsOrdered : (q : PriorityQueue T) → IsOrdered q → IsOrdered (remove_top q)
  unfolding remove_top
  remove_top-IsOrdered q o = remove_top_at-IsOrdered q.len q o refl

  cancel_if-Le : (b c : Bool) (x y : Entry T) → Le x y → Le (cancel_if b x) (cancel_if c y)
  cancel_if-Le true true x y h = h
  cancel_if-Le true false x y h = h
  cancel_if-Le false true x y h = h
  cancel_if-Le false false x y h = h

  -- Flags do not count for the order.
  cancelled-IsHeap :
      (flag : ℕ → Bool) (h : ℕ → Entry T) (n : ℕ)
      → IsHeap h n
      → IsHeap (λ i. cancel_if (flag i) (h i)) n
  cancelled-IsHeap flag h n o j b =
      cancel_if-Le (flag (j / 2)) (flag (suc j)) (h (j / 2)) (h (suc j)) (o j b)

  dequeue_loop-IsOrdered :
      (fuel : ℕ) (q : PriorityQueue T) → IsOrdered q → IsOrdered (dequeue_loop fuel q).1
  unfolding dequeue_loop
  dequeue_loop-IsOrdered zero q o = o
  dequeue_loop-IsOrdered (suc fuel) q o =
      let P = λ (r : Option (Entry T) × PriorityQueue T). IsOrdered r.1 in
      either_branch P (q.len == 0) (λ _. o)
        (λ _.
          either_branch P (q.heap 0).cancelled
            (λ _. dequeue_loop-IsOrdered fuel (remove_top q) (remove_top-IsOrdered q o))
            (λ _. remove_top-IsOrdered q o))

  peek_loop-IsOrdered :
      (fuel : ℕ) (q : PriorityQueue T) → IsOrdered q → IsOrdered (peek_loop fuel q).1
  unfolding peek_loop
  peek_loop-IsOrdered zero q o = o
  peek_loop-IsOrdered (suc fuel) q o =
      let P = λ (r : Option (Entry T) × PriorityQueue T). IsOrdered r.1 in
      either_branch P (q.len == 0) (λ _. o)
        (λ _.
          either_branch P (q.heap 0).cancelled
            (λ _. peek_loop-IsOrdered fuel (remove_top q) (remove_top-IsOrdered q o)) (λ _. o))

  -- A heap stays a heap through an enqueue, a dequeue, a peek, the cancellation of an entry and a
  -- remove, for any value, priority, entry and test.
  pub operations-IsOrdered :
      (q : PriorityQueue T) (v : T) (g : GivenPriority) (order : ℕ) (p : Entry T → Bool)
      → IsOrdered q
      → IsOrdered (enqueue v g q).1
        × IsOrdered (dequeue q).1
        × IsOrdered (peek q).1
        × IsOrdered (cancel order q)
        × IsOrdered (remove p q).1
  unfolding dequeue peek remove
  operations-IsOrdered q v g order p o = (
    enqueue-IsOrdered v g q o,
    dequeue_loop-IsOrdered (suc q.len) q o,
    peek_loop-IsOrdered (suc q.len) q o,
    cancelled-IsHeap (λ i. (q.heap i).arrival_order == order) q.heap q.len o,
    cancelled-IsHeap (λ i. ltb i q.len && (not (q.heap i).cancelled && p (q.heap i))) q.heap q.len
        o,
  )
