-- ===== src/Fiber/State.antt =====
-- fiber.ts, lines 15-345: the state, finalizers, notify, interruptibility and the FiberRef map.
use brass_runtime.Base.{
  ℕ, suc, Bool, true, false, ◌&&◌, List, [], ◌∷◌, ◌++◌, Option, none, some, ◌==◌, is_some,
  if◌then◌else◌, length, set,
}
use mathlib.Core.List.{reverse}
use brass_runtime.Effect.{Exit, success, failure, is_interrupted_only}
use brass_runtime.Async.{World, Async, Body, Mode, uninterruptible, interruptible}

pub data StepDecision : Type 0 where
  continue suspend done : StepDecision

pub data RunState : Type 0 where
  queued running suspended finished : RunState

pub data EndStatus : Type 0 where
  succeeded was_interrupted failed : EndStatus

-- The events that a fiber emits.
pub data Event : Type 0 where
  fiber_suspend fiber_resume : Event
  fiber_end : EndStatus → Event

-- A FiberRefCont without a previous value has `none`.
pub data Frame (H V E : Type 0) : Type 0 where
  success_cont : (V → World H V → Body H V E) → Frame H V E
  fold_cont : (E → World H V → Body H V E) → (V → World H V → Body H V E) → Frame H V E
  interruptibility_cont : ℕ → Frame H V E
  fiber_ref_cont : ℕ → Option V → Frame H V E

-- A finalizer of the program, the canceler of a suspended operation, or a record whose `run` was
-- set to undefined.
pub data Finalizer (H V E : Type 0) : Type 0 where
  user : (Exit E V → World H V → World H V) → Finalizer H V E
  canceler : (World H V → World H V) → Finalizer H V E
  detached : Finalizer H V E

-- `stack` has its top first, `finalizers` the latest last, as in the arrays of the code.
-- `detach` is the place of the finalizer that `_asyncDetach` detaches.
pub record Fiber (H V E : Type 0) : Type 0 where
  pub current : Async H V E
  pub stack : List (Frame H V E)
  pub world : World H V
  pub depth : ℕ
  pub interrupted : Bool
  pub finishing : Bool
  pub closing : Option (Exit E V)
  pub result : Option (Exit E V)
  pub finalizers : List (Finalizer H V E)
  pub drained : Bool
  pub joiners : List (Exit E V → World H V → World H V)
  pub sync_resolved : Bool
  pub detach : Option ℕ
  pub run_state : RunState
  pub events : List Event

pub record Host (H V E : Type 0) : Type 0 where
  pub fork : Async H V E → Option ℕ → World H V → V × World H V
  pub dropped : E

unfoldable pub end_status : {E V : Type 0} → Exit E V → EndStatus
end_status (success v) = succeeded
end_status (failure c) = if is_interrupted_only c then was_interrupted else failed

-- `fiberRefs`, a Map.
module _ {V : Type 0} where
  unfoldable pub ref_get : ℕ → List (ℕ × V) → Option V
  ref_get k [] = none
  ref_get k ((j, v) ∷ m) = if j == k then some v else ref_get k m

  unfoldable pub ref_set : ℕ → V → List (ℕ × V) → List (ℕ × V)
  ref_set k v [] = (k, v) ∷ []
  ref_set k v ((j, w) ∷ m) = if j == k then (j, v) ∷ m else (j, w) ∷ ref_set k v m

  unfoldable pub ref_delete : ℕ → List (ℕ × V) → List (ℕ × V)
  ref_delete k [] = []
  ref_delete k ((j, w) ∷ m) = if j == k then m else (j, w) ∷ ref_delete k m

module _ {H V : Type 0} where
  abbrev pub with_refs : World H V → List (ℕ × V) → World H V
  with_refs w m = record w { refs = m }

  abbrev pub restored_ref : ℕ → Option V → World H V → World H V
  restored_ref k (some v) w = with_refs w (ref_set k v w.refs)
  restored_ref k none w = with_refs w (ref_delete k w.refs)

abbrev pub entered : Mode → ℕ → ℕ
entered uninterruptible d = suc d
entered interruptible d = 0

module _ {H V E : Type 0} where
  unfoldable pub restore_fiber_ref : ℕ → Option V → Fiber H V E → Fiber H V E
  restore_fiber_ref k p f = record f { world = restored_ref k p f.world }

  unfoldable pub add_finalizer : (Exit E V → World H V → World H V) → Fiber H V E → Fiber H V E
  add_finalizer fin f = record f { finalizers = f.finalizers ++ (user fin ∷ []) }

  unfoldable pub add_transient_finalizer : (World H V → World H V) → Fiber H V E → Fiber H V E
  add_transient_finalizer c f = record f {
    finalizers = f.finalizers ++ (canceler c ∷ []);
    detach = some (length f.finalizers);
  }

  abbrev pub detach_at : Option ℕ → List (Finalizer H V E) → List (Finalizer H V E)
  detach_at none fins = fins
  detach_at (some n) fins = set fins n detached

  -- The loop of runFinalizersOnce over the array from its end; the flag is `_syncResolved`.
  unfoldable pub drain : List (Finalizer H V E) → Exit E V → Bool → World H V → World H V × Bool
  drain [] x s w = (w, s)
  drain (user fin ∷ r) x s w = drain r x s (fin x w)
  drain (canceler c ∷ r) x s w = drain r x true (if s then w else c w)
  drain (detached ∷ r) x s w = drain r x s w

  unfoldable pub run_finalizers_once : Exit E V → Fiber H V E → Fiber H V E
  run_finalizers_once x f =
      if f.drained
      then f
      else let (w, s) = drain (reverse f.finalizers) x f.sync_resolved f.world in
        record f { drained = true; finalizers = []; world = w; sync_resolved = s }

  unfoldable pub run_joiners :
      List (Exit E V → World H V → World H V) → Exit E V → World H V → World H V
  run_joiners [] x w = w
  run_joiners (j ∷ js) x w = run_joiners js x (j x w)

  -- The part of notify behind its guards.
  unfoldable pub finish : Exit E V → Fiber H V E → Fiber H V E
  unfolding run_finalizers_once run_joiners end_status
  finish x f =
      let g = run_finalizers_once x (record f { finishing = true; closing = some x }) in
      record g {
        result = some x;
        events = g.events ++ (fiber_end (end_status x) ∷ []);
        world = run_joiners g.joiners x g.world;
        joiners = [];
      }

  unfoldable pub notify : Exit E V → Fiber H V E → Fiber H V E
  unfolding finish
  notify x f = if is_some f.result then f else if is_some f.closing then f else finish x f

  unfoldable pub should_interrupt_now : Fiber H V E → Bool
  should_interrupt_now f = f.interrupted && (f.depth == 0)

  -- A fiber as its constructor makes it.
  unfoldable pub start : Async H V E → World H V → Fiber H V E
  start e w = record {
    current = e;
    stack = [];
    world = w;
    depth = 0;
    interrupted = false;
    finishing = false;
    closing = none;
    result = none;
    finalizers = [];
    drained = false;
    joiners = [];
    sync_resolved = false;
    detach = none;
    run_state = running;
    events = [];
  }

  unfoldable pub join : (Exit E V → World H V → World H V) → Fiber H V E → Fiber H V E
  join cb f = elim f.result [
    | some x ↦ record f { world = cb x f.world }
    | none ↦ record f { joiners = f.joiners ++ (cb ∷ []) }
  ]
