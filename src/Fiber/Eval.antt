-- ===== src/Fiber/Eval.antt =====
-- What an effect means, by recursion on the effect: no stack, no budget, no trampoline.
-- It is the reference against which the machine of fiber.ts is proved right. Outcomes: the effect
-- ends in an exit; or the whole fiber ends at once with a cause that no handler sees; or it waits
-- for a callback, and the frames say what is to follow the callback's exit.
use brass_runtime.Base.{
  ℕ, suc, Bool, ◌&&◌, List, [], ◌∷◌, ◌++◌, Option, none, some, ◌==◌, if◌then◌else◌,
}
use brass_runtime.Effect.{
  Cause, Exit, success, failure, die, interrupt, is_failure_only, first_failure,
}
use brass_runtime.Async.{
  World, Call, returned, threw, Registered, Async, Body, returns, throws, succeed, fail, sync,
  async, flat_map, fold, fork, interruptibility, interruptibility_mask, interruptibility_restore,
  fiber_ref_locally,
}
use brass_runtime.Fiber.State.{
  Frame, success_cont, fold_cont, interruptibility_cont, fiber_ref_cont, Fiber, Host, ref_get,
  ref_set, with_refs, restored_ref, entered,
}
use brass_runtime.Fiber.Unwind.{leaving, choose_handler}

-- The world and the interruptibility depth.
pub record Context (H V : Type 0) : Type 0 where
  pub world : World H V
  pub depth : ℕ

pub data Outcome (H V E : Type 0) : Type 0 where
  ended : Exit E V → Context H V → Outcome H V E
  aborted : Cause E → Context H V → Outcome H V E
  waiting : List (Frame H V E) → Option (World H V → World H V) → Context H V → Outcome H V E

module _ {H V : Type 0} where
  abbrev pub at_world : World H V → Context H V → Context H V
  at_world w c = record c { world = w }

  abbrev pub at_depth : ℕ → Context H V → Context H V
  at_depth d c = record c { depth = d }

module _ {H V E : Type 0} where
  -- A frame, given what its continuations do.
  abbrev pub bind : Frame H V E → (V → Context H V → Outcome H V E) → Outcome H V E → Outcome H V E
  bind fr k (ended (success v) c) = k v c
  bind fr k (ended (failure e) c) = ended (failure e) c
  bind fr k (aborted e c) = aborted e c
  bind fr k (waiting frs r c) = waiting (frs ++ (fr ∷ [])) r c

  -- Only a cause that consists of failures is handled.
  abbrev pub handle : (E → Context H V → Outcome H V E) → Cause E → Context H V → Outcome H V E
  handle h e c =
      choose_handler (is_failure_only e) (first_failure e) (ended (failure e) c) (aborted e c)
        (λ x. h x c)

  abbrev pub fold_bind :
      Frame H V E
      → (E → Context H V → Outcome H V E)
      → (V → Context H V → Outcome H V E)
      → Outcome H V E
      → Outcome H V E
  fold_bind fr h k (ended (success v) c) = k v c
  fold_bind fr h k (ended (failure e) c) = handle h e c
  fold_bind fr h k (aborted e c) = aborted e c
  fold_bind fr h k (waiting frs r c) = waiting (frs ++ (fr ∷ [])) r c

  -- The end of a region that began at depth `d`, in a fiber that was interrupted or not.
  abbrev pub leave : Bool → ℕ → Outcome H V E → Outcome H V E
  leave i d (ended (success v) c) =
      if i && (d == 0) then aborted interrupt (at_depth d c) else ended (success v) (at_depth d c)
  leave i d (ended (failure e) c) = ended (failure (leaving (i && (d == 0)) e)) (at_depth d c)
  leave i d (aborted e c) = aborted e c
  leave i d (waiting frs r c) = waiting (frs ++ (interruptibility_cont d ∷ [])) r c

  abbrev pub forget : ℕ → Option V → Outcome H V E → Outcome H V E
  forget k p (ended x c) = ended x (at_world (restored_ref k p c.world) c)
  forget k p (aborted e c) = aborted e c
  forget k p (waiting frs r c) = waiting (frs ++ (fiber_ref_cont k p ∷ [])) r c

  abbrev pub of_call : Call H V E → Context H V → Outcome H V E
  of_call (returned v w) c = ended (success v) (at_world w c)
  of_call (threw e w) c = ended (failure (Cause.fail e)) (at_world w c)

  abbrev pub of_resolved : Option (Exit E V) → Registered H V E → Context H V → Outcome H V E
  of_resolved (some x) r c = ended x (at_world r.world c)
  of_resolved none r c = waiting [] r.canceler (at_world r.world c)

  abbrev pub of_registered : Registered H V E → Context H V → Outcome H V E
  of_registered r c = of_resolved r.resolved r c

  -- A thunk that throws directly under a FlatMap ends the fiber, although alone it only fails.
  abbrev pub thrown_fatal : Call H V E → Context H V → Outcome H V E
  thrown_fatal (returned v w) c = ended (success v) (at_world w c)
  thrown_fatal (threw e w) c = aborted (die e) (at_world w c)

  abbrev pub under_flat_map : Async H V E → Context H V → Outcome H V E → Outcome H V E
  under_flat_map (sync thunk) c o = thrown_fatal (thunk c.world) c
  under_flat_map e c o = o

module _ {H V E : Type 0} (host : Host H V E) (i : Bool) where
  unfoldable mutual
    pub eval : Async H V E → Context H V → Outcome H V E
    eval (succeed v) c = ended (success v) c
    eval (fail e) c = ended (failure (Cause.fail e)) c
    eval (sync thunk) c = of_call (thunk c.world) c
    eval (async register) c = of_registered (register c.world) c
    eval (flat_map a k) c =
        bind (success_cont k) (λ v d. eval_body (k v d.world) d) (under_flat_map a c (eval a c))
    eval (fold a h k) c =
        fold_bind (fold_cont h k) (λ e d. eval_handler (h e d.world) d)
          (λ v d. eval_body (k v d.world) d) (eval a c)
    eval (fork e scope) c =
        let (v, w) = host.fork e scope c.world in ended (success v) (at_world w c)
    eval (interruptibility m e) c = leave i c.depth (eval e (at_depth (entered m c.depth) c))
    eval (interruptibility_mask body) c =
        leave i c.depth (eval_mask (body c.depth c.world) (at_depth (suc c.depth) c))
    eval (interruptibility_restore d e) c = leave i c.depth (eval e (at_depth d c))
    eval (fiber_ref_locally k v e) c =
        forget k (ref_get k c.world.refs)
          (eval e (at_world (with_refs c.world (ref_set k v c.world.refs)) c))

    pub eval_body : Body H V E → Context H V → Outcome H V E
    eval_body (returns e w) c = eval e (at_world w c)
    eval_body (throws x w) c = aborted (die x) (at_world w c)

    pub eval_handler : Body H V E → Context H V → Outcome H V E
    eval_handler (returns e w) c = eval e (at_world w c)
    eval_handler (throws x w) c = ended (failure (Cause.fail x)) (at_world w c)

    pub eval_mask : Body H V E → Context H V → Outcome H V E
    eval_mask (returns e w) c = eval e (at_world w c)
    eval_mask (throws x w) c = ended (failure (die x)) (at_world w c)

  abbrev pub through : Frame H V E → Outcome H V E → Outcome H V E
  through (success_cont k) o = bind (success_cont k) (λ v d. eval_body (k v d.world) d) o
  through (fold_cont h k) o =
      fold_bind (fold_cont h k) (λ e d. eval_handler (h e d.world) d)
        (λ v d. eval_body (k v d.world) d) o
  through (interruptibility_cont d) o = leave i d o
  through (fiber_ref_cont k p) o = forget k p o

  -- A stack of frames, the top first.
  abbrev pub unwind : List (Frame H V E) → Outcome H V E → Outcome H V E
  unwind [] o = o
  unwind (fr ∷ s) o = unwind s (through fr o)

-- How a fiber ends: an exit, with the world when it is reached; or it waits, with its stack.
pub data Verdict (H V E : Type 0) : Type 0 where
  exits : Exit E V → World H V → Verdict H V E
  waits : List (Frame H V E) → Option (World H V → World H V) → Context H V → Verdict H V E

module _ {H V E : Type 0} (i : Bool) where
  -- At the bottom of the stack a success is lost to a pending interruption.
  abbrev pub conclude : Outcome H V E → Verdict H V E
  conclude (ended (success v) c) =
      if i && (c.depth == 0) then exits (failure interrupt) c.world else exits (success v) c.world
  conclude (ended (failure e) c) = exits (failure e) c.world
  conclude (aborted e c) = exits (failure e) c.world
  conclude (waiting frs r c) = waits frs r c

module _ {H V E : Type 0} where
  abbrev pub context : Fiber H V E → Context H V
  context f = record { world = f.world; depth = f.depth }

  -- What a fiber that has not ended will come to.
  abbrev pub meaning : Host H V E → Fiber H V E → Verdict H V E
  meaning host f =
      conclude f.interrupted
        (unwind host f.interrupted f.stack (eval host f.interrupted f.current (context f)))
