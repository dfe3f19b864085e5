-- ===== src/PriorityQueue.antt =====
-- http/lifecycle/priorityQueue.ts (`PriorityQueue<T>`): a binary heap in an array.
-- The array is a function of the index with a length; what stands past its end does not matter.
-- `>>> 1` is the half, as it is for an index below 2^32. An entry that its holder cancels is known
-- by its `arrival_order`.
pub mod Order
pub mod Up
pub mod Down
pub mod Counts
pub mod Valid
pub mod Served
mod Tests
use brass_runtime.Base.{
  ℕ, zero, suc, ◌+◌, ◌-◌, ◌*◌, ◌/◌, Bool, true, false, not, ◌&&◌, Option, none, some, if◌then◌else◌,
  ◌==◌, ltb, min,
}
use brass_runtime.Links.{write}

pub record Entry (T : Type 0) : Type 0 where
  pub priority : ℕ
  pub arrival_order : ℕ
  pub value : T
  pub cancelled : Bool

pub record PriorityQueue (T : Type 0) : Type 0 where
  pub heap : ℕ → Entry T
  pub len : ℕ
  pub counter : ℕ

-- A priority as a program gives it: none, NaN or infinite; below 0; or a number from 0 on, of
-- which the integer part counts.
pub data GivenPriority : Type 0 where
  not_finite below_zero : GivenPriority
  from_zero : ℕ → GivenPriority

abbrev pub clamp_priority : GivenPriority → ℕ
clamp_priority not_finite = 5
clamp_priority below_zero = 0
clamp_priority (from_zero n) = min 9 n

module _ {T : Type 0} where
  -- A new queue; `memory` stands past the end of its array.
  abbrev pub new_queue : (ℕ → Entry T) → PriorityQueue T
  new_queue memory = record { heap = memory; len = 0; counter = 0 }

  -- `comparePriority(a, b) < 0`
  abbrev pub precedes : Entry T → Entry T → Bool
  precedes a b =
      if a.priority == b.priority
      then ltb a.arrival_order b.arrival_order
      else ltb a.priority b.priority

  abbrev pub swap : (ℕ → Entry T) → ℕ → ℕ → ℕ → Entry T
  swap h i j = write (write h i (h j)) j (h i)

  -- The loop of `bubbleUp`; each round halves the index.
  unfoldable pub bubble_up : ℕ → (ℕ → Entry T) → ℕ → ℕ → Entry T
  bubble_up zero h i = h
  bubble_up (suc fuel) h zero = h
  bubble_up (suc fuel) h (suc j) =
      let parent = j / 2 in
      let rest = bubble_up fuel (swap h (suc j) parent) parent in
      if precedes (h (suc j)) (h parent) then rest else h

  abbrev pub smaller_child : (ℕ → Entry T) → ℕ → ℕ → ℕ → ℕ
  smaller_child h len child i = if ltb child len && precedes (h child) (h i) then child else i

  abbrev pub smallest : (ℕ → Entry T) → ℕ → ℕ → ℕ
  smallest h len i = smaller_child h len (2 * i + 2) (smaller_child h len (2 * i + 1) i)

  -- The loop of `sinkDown`; each round raises the index, which stays below the length.
  unfoldable pub sink_down : ℕ → (ℕ → Entry T) → ℕ → ℕ → ℕ → Entry T
  sink_down zero h len i = h
  sink_down (suc fuel) h len i =
      let s = smallest h len i in
      let rest = sink_down fuel (swap h i s) len s in if s == i then h else rest

  -- What `removeTop` does with the length that it finds.
  unfoldable pub remove_top_at : ℕ → PriorityQueue T → PriorityQueue T
  unfolding sink_down
  remove_top_at zero q = q
  remove_top_at (suc n) q =
      if n == 0
      then record q { len = n }
      else record q { heap = sink_down n (write q.heap 0 (q.heap n)) n 0; len = n }

  unfoldable pub remove_top : PriorityQueue T → PriorityQueue T
  unfolding remove_top_at
  remove_top q = remove_top_at q.len q

  unfoldable pub enqueue : T → GivenPriority → PriorityQueue T → Entry T × PriorityQueue T
  unfolding bubble_up
  enqueue v p q =
      let entry : Entry T = record {
        priority = clamp_priority p;
        arrival_order = q.counter;
        value = v;
        cancelled = false;
      } in
      (
        entry,
        record {
          heap = bubble_up q.len (write q.heap q.len entry) q.len;
          len = suc q.len;
          counter = suc q.counter;
        },
      )

  -- The loop of `dequeue`; each round takes one entry out.
  unfoldable pub dequeue_loop : ℕ → PriorityQueue T → Option (Entry T) × PriorityQueue T
  unfolding remove_top
  dequeue_loop zero q = (none, q)
  dequeue_loop (suc fuel) q =
      let top = q.heap 0 in
      let rest = dequeue_loop fuel (remove_top q) in
      if q.len == 0 then (none, q) else if top.cancelled then rest else (some top, remove_top q)

  unfoldable pub dequeue : PriorityQueue T → Option (Entry T) × PriorityQueue T
  unfolding dequeue_loop
  dequeue q = dequeue_loop (suc q.len) q

  -- The loop of `peek`.
  unfoldable pub peek_loop : ℕ → PriorityQueue T → Option (Entry T) × PriorityQueue T
  unfolding remove_top
  peek_loop zero q = (none, q)
  peek_loop (suc fuel) q =
      let top = q.heap 0 in
      let rest = peek_loop fuel (remove_top q) in
      if q.len == 0 then (none, q) else if top.cancelled then rest else (some top, q)

  unfoldable pub peek : PriorityQueue T → Option (Entry T) × PriorityQueue T
  unfolding peek_loop
  peek q = peek_loop (suc q.len) q

  abbrev pub cancel_if : Bool → Entry T → Entry T
  cancel_if b e = if b then record e { cancelled = true } else e

  -- `entry.cancelled = true` by the holder of an entry.
  abbrev pub cancel : ℕ → PriorityQueue T → PriorityQueue T
  cancel order q = record q { heap = λ i. cancel_if ((q.heap i).arrival_order == order) (q.heap i) }

  -- The loop of `remove` over the first n entries, with its count.
  abbrev pub removed_among : (Entry T → Bool) → (ℕ → Entry T) → ℕ → ℕ
  removed_among p h zero = 0
  removed_among p h (suc n) =
      let count = removed_among p h n in if not (h n).cancelled && p (h n) then count + 1 else count

  unfoldable pub remove : (Entry T → Bool) → PriorityQueue T → ℕ × PriorityQueue T
  remove p q = (
    removed_among p q.heap q.len,
    record q {
      heap = λ i. cancel_if (ltb i q.len && (not (q.heap i).cancelled && p (q.heap i))) (q.heap i);
    },
  )

  abbrev pub active_among : (ℕ → Entry T) → ℕ → ℕ
  active_among h zero = 0
  active_among h (suc n) = active_among h n + (if (h n).cancelled then 0 else 1)

  abbrev pub active_size : PriorityQueue T → ℕ
  active_size q = active_among q.heap q.len
