-- ===== src/Fiber/Throws.antt =====
-- A thunk that throws, alone and under a FlatMap.
use brass_runtime.Base.{suc, ℕ, Bool, false, some, ◌≡◌, arith, List}
use brass_runtime.Effect.{Exit, failure, die, is_failure_only, first_failure}
use brass_runtime.Async.{World, Call, threw, Body, returns, Async, sync, flat_map, fold}
use brass_runtime.Fiber.State.{Fiber, Host, should_interrupt_now, notify, Finalizer}
use brass_runtime.Fiber.Unwind.{pop_cause}
use brass_runtime.Fiber.Machine.{exec, trampoline_round, step}
use brass_runtime.Fiber.Rounds.{Lives}

module _ {H V E : Type 0} (host : Host H V E) (i : Bool) (fins : List (Finalizer H V E))
    (js : List (Exit E V → World H V → World H V)) where
  abbrev pub with_current : Async H V E → Fiber H V E → Fiber H V E
  with_current e f = record f { current = e }

  -- `asyncFold(asyncSync(thunk), handler, k)`: the handler sees what the thunk throws, and the step
  -- goes on with the effect that the handler returns.
  pub thrown_alone :
      (b : ℕ) (f : Fiber H V E) (thunk : World H V → Call H V E) (h : E → World H V → Body H V E)
      (k : V → World H V → Body H V E) (e : E) (w w' : World H V) (a : Async H V E)
      → Lives host i fins js f
      → should_interrupt_now f ≡ false
      → thunk f.world ≡ threw e w
      → h e w ≡ returns a w'
      → step host (suc (suc b)) (with_current (fold (sync thunk) h k) f)
        ≡ step host b (record f { current = a; world = w' })
  unfolding step exec pop_cause is_failure_only first_failure
  thrown_alone b f thunk h k e w w' a l n t r = ground (arith, l.no_result)

  -- `asyncFold(asyncFlatMap(asyncSync(thunk), g), handler, k)`: the fiber dies of it, and the
  -- handler is not asked.
  pub thrown_below :
      (b : ℕ) (f : Fiber H V E) (thunk : World H V → Call H V E) (g : V → World H V → Body H V E)
      (h : E → World H V → Body H V E) (k : V → World H V → Body H V E) (e : E) (w : World H V)
      → Lives host i fins js f
      → should_interrupt_now f ≡ false
      → thunk f.world ≡ threw e w
      → (step host
          (suc (suc (suc b)))
          (with_current (fold (flat_map (sync thunk) g) h k) f)).1.result
        ≡ some (failure (die e))
  unfolding step exec trampoline_round notify
  thrown_below b f thunk g h k e w l n t = ground (arith, l.no_result)
