-- ===== src/Fiber/Calm.antt =====
-- Where the machine of fiber.ts has one meaning for an effect. A thunk that throws is a failure to
-- the switch of `step`, and ends the fiber in the trampoline; a FlatMap directly over a thunk is
-- run by the trampoline, except when a failure handler has just returned it to the trampoline. An
-- effect is calm if no handler of it returns a FlatMap directly over a thunk that may throw.
use brass_runtime.Base.{ℕ, List, [], ◌∷◌}
use brass_runtime.Async.{
  World, Call, returned, threw, Async, Body, returns, throws, succeed, fail, sync, async, flat_map,
  fold, fork, interruptibility, interruptibility_mask, interruptibility_restore, fiber_ref_locally,
}
use brass_runtime.Fiber.State.{
  Frame, success_cont, fold_cont, interruptibility_cont, fiber_ref_cont, Fiber,
}

module _ {H V E : Type 0} where
  abbrev pub Returns : Call H V E → Type 0
  Returns (returned v w) = Unit
  Returns (threw e w) = ⊥

  -- No FlatMap directly over a thunk that may throw.
  abbrev pub Steady : Async H V E → Type 0
  Steady (flat_map (sync thunk) k) = (w : World H V) → Returns (thunk w)
  Steady e = Unit

  unfoldable mutual
    pub Calm : Async H V E → Type 0
    Calm (succeed v) = Unit
    Calm (fail e) = Unit
    Calm (sync thunk) = Unit
    Calm (async register) = Unit
    Calm (flat_map a k) = Calm a × ((v : V) (w : World H V) → CalmBody (k v w))
    Calm (fold a h k) =
        Calm a
        × ((e : E) (w : World H V) → CalmHandler (h e w))
        × ((v : V) (w : World H V) → CalmBody (k v w))
    Calm (fork e scope) = Unit
    Calm (interruptibility m e) = Calm e
    Calm (interruptibility_mask body) = (d : ℕ) (w : World H V) → CalmBody (body d w)
    Calm (interruptibility_restore d e) = Calm e
    Calm (fiber_ref_locally k v e) = Calm e

    pub CalmBody : Body H V E → Type 0
    CalmBody (returns e w) = Calm e
    CalmBody (throws x w) = Unit

    pub CalmHandler : Body H V E → Type 0
    CalmHandler (returns e w) = Calm e × Steady e
    CalmHandler (throws x w) = Unit

  abbrev pub CalmFrame : Frame H V E → Type 0
  CalmFrame (success_cont k) = (v : V) (w : World H V) → CalmBody (k v w)
  CalmFrame (fold_cont h k) =
      ((e : E) (w : World H V) → CalmHandler (h e w)) × ((v : V) (w : World H V) → CalmBody (k v w))
  CalmFrame (interruptibility_cont d) = Unit
  CalmFrame (fiber_ref_cont k p) = Unit

  abbrev pub CalmStack : List (Frame H V E) → Type 0
  CalmStack [] = Unit
  CalmStack (fr ∷ s) = CalmFrame fr × CalmStack s

  abbrev pub IsCalm : Fiber H V E → Type 0
  IsCalm f = Calm f.current × CalmStack f.stack
