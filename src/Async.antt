-- ===== src/Async.antt =====
-- core/types/asyncEffect.ts: effects as data.
-- A callback of the program (a thunk, a continuation, a register function) is a function of the
-- world that it can read and change: the JavaScript heap `H`, which holds the environment too, and
-- the fiber's own FiberRef values. It returns or throws. `V` are the program's values, `E` its
-- errors, exceptions and defects.
pub mod Combinators
use brass_runtime.Base.{ℕ, List, Option}
use brass_runtime.Effect.{Exit}

-- `fiberContext.fiberRefs` is an association list from the ids of FiberRefs to their values.
pub record World (H V : Type 0) : Type 0 where
  pub heap : H
  pub refs : List (ℕ × V)

pub data Call (H V E : Type 0) : Type 0 where
  returned : V → World H V → Call H V E
  threw : E → World H V → Call H V E

-- What `register(env, cb)` has done when it returns: the exit that it passed to `cb` already, if
-- any, and the canceler that it returned, if any.
pub record Registered (H V E : Type 0) : Type 0 where
  pub world : World H V
  pub resolved : Option (Exit E V)
  pub canceler : Option (World H V → World H V)

pub data Mode : Type 0 where
  uninterruptible interruptible : Mode

mutual
  -- The body of a mask is given `restore`, which only carries the depth at the mask.
  pub data Async (H V E : Type 0) : Type 0 where
    succeed : V → Async H V E
    fail : E → Async H V E
    sync : (World H V → Call H V E) → Async H V E
    async : (World H V → Registered H V E) → Async H V E
    flat_map : Async H V E → (V → World H V → Body H V E) → Async H V E
    fold : Async H V E → (E → World H V → Body H V E) → (V → World H V → Body H V E) → Async H V E
    fork : Async H V E → Option ℕ → Async H V E
    interruptibility : Mode → Async H V E → Async H V E
    interruptibility_mask : (ℕ → World H V → Body H V E) → Async H V E
    interruptibility_restore : ℕ → Async H V E → Async H V E
    fiber_ref_locally : ℕ → V → Async H V E → Async H V E

  -- How a call of a continuation ends.
  pub data Body (H V E : Type 0) : Type 0 where
    returns : Async H V E → World H V → Body H V E
    throws : E → World H V → Body H V E
