-- ===== src/Semaphore.antt =====
-- core/runtime/semaphore.ts (`makeSemaphore`).
-- A callback is known by a number; `granted` is the list of the callbacks that were given a permit,
-- in order; what a callback does when it is called is not modelled. `permits` has, for each
-- `releaseOnce` of `acquirePermit`, whether it was called.
pub mod Permits
pub mod Line
pub mod Cuts
pub mod Served
mod Tests
use brass_runtime.Base.{
  ℕ, suc, ◌+◌, ◌-◌, max, Bool, true, false, List, [], ◌∷◌, ◌++◌, Option, none, some, length, get_or,
  set, ltb, if◌then◌else◌,
}
use brass_runtime.LinkedQueue.{LinkedQueue, empty, len, remove}
use brass_runtime.LinkedQueue

pub record Semaphore : Type 0 where
  pub capacity : ℕ
  pub available : ℕ
  pub total_acquired : ℕ
  pub total_released : ℕ
  pub waiters : LinkedQueue ℕ
  pub granted : List ℕ
  pub permits : List Bool

abbrev pub make_semaphore : ℕ → Semaphore
make_semaphore n = record {
  capacity = max 1 n;
  available = max 1 n;
  total_acquired = 0;
  total_released = 0;
  waiters = empty;
  granted = [];
  permits = [];
}

-- The node of the waiter, for the canceler, if the permit is not given at once.
unfoldable pub acquire : ℕ → Semaphore → Option ℕ × Semaphore
acquire cb s =
    let (node, waiting) = LinkedQueue.push cb s.waiters in
    if ltb 0 s.available
    then (
      none,
      record s {
        available = s.available - 1;
        total_acquired = s.total_acquired + 1;
        granted = s.granted ++ (cb ∷ []);
      },
    )
    else (some node, record s { waiters = waiting })

unfoldable pub cancel : ℕ → Semaphore → Semaphore
cancel node s = record s { waiters = remove node s.waiters }

abbrev pub release_to : Option ℕ × LinkedQueue ℕ → Semaphore → Semaphore
release_to (some waiter, rest) s = record s {
  waiters = rest;
  total_acquired = s.total_acquired + 1;
  granted = s.granted ++ (waiter ∷ []);
}
release_to (none, rest) s = record s { available = s.available + 1 }

unfoldable pub release : Semaphore → Semaphore
release s =
    release_to (LinkedQueue.shift s.waiters) (record s { total_released = s.total_released + 1 })

-- The effect after `acquire` in `acquirePermit`: a new `releaseOnce`.
unfoldable pub new_permit : Semaphore → ℕ × Semaphore
new_permit s = (length s.permits, record s { permits = s.permits ++ (false ∷ []) })

unfoldable pub release_once : ℕ → Semaphore → Semaphore
unfolding release
release_once permit s =
    if get_or s.permits permit true
    then s
    else release (record s { permits = set s.permits permit true })
