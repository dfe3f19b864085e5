-- ===== src/PriorityQueue/Tests.antt =====
-- Witnesses for the theorems on PriorityQueue: a queue in which three values were put, the second
-- of which comes first.
use brass_runtime.Base.{ℕ, Bool, false, ◌==◌, ◌≡◌}
use brass_runtime.PriorityQueue.{
  Entry, PriorityQueue, new_queue, from_zero, not_finite, enqueue, dequeue, peek, cancel, remove,
}
use brass_runtime.PriorityQueue.Valid.{
  IsOrdered, new_queue-IsOrdered, enqueue-IsOrdered, operations-IsOrdered,
}
use brass_runtime.PriorityQueue.Served.{IsServed, dequeue-IsServed, dequeue-peek}

abbrev memory : ℕ → Entry ℕ
memory i = record { priority = 0; arrival_order = 0; value = 0; cancelled = false }

abbrev three : PriorityQueue ℕ
three =
    (enqueue 30 (from_zero 5)
      (enqueue 20 (from_zero 1) (enqueue 10 not_finite (new_queue memory)).1).1).1

abbrev is_thirty : Entry ℕ → Bool
is_thirty e = e.value == 30

three-IsOrdered : IsOrdered three
three-IsOrdered = enqueue-IsOrdered 30 (from_zero 5) _ (
    enqueue-IsOrdered 20 (from_zero 1) _
      (enqueue-IsOrdered 10 not_finite (new_queue memory) (new_queue-IsOrdered memory)))

operations-IsOrdered_example :
    IsOrdered (enqueue 40 (from_zero 3) three).1
    × IsOrdered (dequeue three).1
    × IsOrdered (peek three).1
    × IsOrdered (cancel 1 three)
    × IsOrdered (remove is_thirty three).1
operations-IsOrdered_example =
    operations-IsOrdered three 40 (from_zero 3) 1 is_thirty three-IsOrdered

dequeue-IsServed_example : IsServed three (dequeue three)
dequeue-IsServed_example = dequeue-IsServed three three-IsOrdered

dequeue-peek_example :
    ((peek three).0 ≡ (dequeue three).0) × (dequeue (peek three).1 ≡ dequeue three)
dequeue-peek_example = dequeue-peek three
