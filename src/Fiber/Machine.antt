-- ===== src/Fiber/Machine.antt =====
-- fiber.ts, lines 241-272 and 446-754: the step with its budget, the trampoline, and what comes
-- from outside (schedule, interrupt, the callback of a suspended operation).
use brass_runtime.Base.{
  ℕ, zero, suc, Bool, true, false, List, [], ◌∷◌, ◌++◌, Option, none, some, ◌==◌, is_some,
  if◌then◌else◌,
}
use brass_runtime.Effect.{Exit, success, failure, die, interrupt}
use brass_runtime.Async.{
  World, Call, returned, threw, Registered, Async, Body, returns, throws, succeed, fail, sync,
  async, flat_map, fold, fork, interruptibility, interruptibility_mask, interruptibility_restore,
  fiber_ref_locally,
}
use brass_runtime.Fiber.State.{
  StepDecision, continue, suspend, done, RunState, Frame, success_cont, fold_cont,
  interruptibility_cont, fiber_ref_cont, Fiber, Host, ref_get, ref_set, with_refs,
  add_transient_finalizer, detach_at, notify, should_interrupt_now, entered, fiber_suspend,
  fiber_resume,
}
use brass_runtime.Fiber.Unwind.{on_success, on_cause, on_failure}

-- One round of the loop of `step`: the loop goes on, or the step returns.
pub data Round (H V E : Type 0) : Type 0 where
  go : Fiber H V E → Round H V E
  stop : StepDecision → Fiber H V E → Round H V E

-- One round of the trampoline: again, a return of DONE or SUSPEND, or a return of CONTINUE.
pub data Bounce (H V E : Type 0) : Type 0 where
  again : Fiber H V E → Bounce H V E
  ended : StepDecision → Fiber H V E → Bounce H V E
  left : Fiber H V E → Bounce H V E

pub data ScheduleResult : Type 0 where
  accepted dropped : ScheduleResult

module _ {H V E : Type 0} where
  abbrev pub push : Frame H V E → Fiber H V E → Fiber H V E
  push fr f = record f { stack = fr ∷ f.stack }

  -- A registered operation that did not resolve at once: its canceler becomes a finalizer.
  unfoldable pub await_callback : Registered H V E → Fiber H V E → Fiber H V E
  unfolding add_transient_finalizer
  await_callback r f = elim r.canceler [
    | none ↦ record f { world = r.world; sync_resolved = false }
    | some c ↦ add_transient_finalizer c (record f { world = r.world; sync_resolved = false })
  ]

  abbrev pub resolved_now : Registered H V E → Fiber H V E → Fiber H V E
  resolved_now r f = record f { world = r.world; sync_resolved = true }

  -- `onSuccess` or `onCause`, by the exit of an operation.
  unfoldable pub resume_with : Exit E V → Fiber H V E → Fiber H V E
  unfolding on_success on_cause
  resume_with (success v) f = on_success v f
  resume_with (failure c) f = (on_cause c f).0

  unfoldable pub run_sync : Call H V E → Fiber H V E → Fiber H V E
  unfolding on_success on_failure
  run_sync (returned v w) f = on_success v (record f { world = w })
  run_sync (threw e w) f = on_failure e (record f { world = w })

  unfoldable pub run_mask : Body H V E → Fiber H V E → Fiber H V E
  unfolding on_cause
  run_mask (returns e w) f = record f { current = e; world = w }
  run_mask (throws x w) f = (on_cause (die x) (record f { world = w })).0

  -- After `register` has returned: the sync resolution, or the suspension.
  abbrev pub settle_registered : Option (Exit E V) → Registered H V E → Fiber H V E → Round H V E
  settle_registered (some x) r f = go (resume_with x (resolved_now r f))
  settle_registered none r f = stop suspend (await_callback r f)

  -- The switch of `step`, on `this.current`.
  unfoldable pub exec : Host H V E → Async H V E → Fiber H V E → Round H V E
  unfolding await_callback resume_with run_sync run_mask on_success on_failure
  exec host (succeed v) f = go (on_success v f)
  exec host (fail e) f = go (on_failure e f)
  exec host (flat_map a k) f = go (record f { stack = success_cont k ∷ f.stack; current = a })
  exec host (fold a h k) f = go (record f { stack = fold_cont h k ∷ f.stack; current = a })
  exec host (async register) f =
      if f.finishing
      then stop (if is_some f.result then done else continue) f
      else let r = register f.world in settle_registered r.resolved r f
  exec host (fork e scope) f =
      let (v, w) = host.fork e scope f.world in go (on_success v (record f { world = w }))
  exec host (interruptibility m e) f = go (record f {
    stack = interruptibility_cont f.depth ∷ f.stack;
    depth = entered m f.depth;
    current = e;
  })
  exec host (interruptibility_mask body) f = go (
      run_mask (body f.depth f.world)
        (record f { stack = interruptibility_cont f.depth ∷ f.stack; depth = suc f.depth }))
  exec host (interruptibility_restore d e) f =
      go (record f { stack = interruptibility_cont f.depth ∷ f.stack; depth = d; current = e })
  exec host (fiber_ref_locally k v e) f = go (record f {
    stack = fiber_ref_cont k (ref_get k f.world.refs) ∷ f.stack;
    world = with_refs f.world (ref_set k v f.world.refs);
    current = e;
  })
  exec host (sync thunk) f = go (run_sync (thunk f.world) f)

  -- The inner loop of the trampoline: left-nested FlatMaps are pushed, down to one whose first
  -- effect is no FlatMap.
  unfoldable pub descend : Async H V E → List (Frame H V E) → Async H V E × List (Frame H V E)
  descend (flat_map (flat_map a g) k) s = descend (flat_map a g) (success_cont k ∷ s)
  descend e s = (e, s)

  -- `this.current = andThen(value)`, where a throw ends the fiber.
  unfoldable pub bounce_on : Body H V E → Fiber H V E → Bounce H V E
  bounce_on (returns e w) f = again (record f { current = e; world = w })
  bounce_on (throws x w) f = ended done (notify (failure (die x)) (record f { world = w }))

  unfoldable pub bounce_sync :
      (V → World H V → Body H V E) → Call H V E → Fiber H V E → Bounce H V E
  unfolding bounce_on
  bounce_sync k (returned v w) f = bounce_on (k v w) (record f { world = w })
  bounce_sync k (threw x w) f = ended done (notify (failure (die x)) (record f { world = w }))

  unfoldable pub bounce_failed : Fiber H V E → Bounce H V E
  bounce_failed f = if is_some f.result then ended done f else left f

  unfoldable pub bounce_exit : (V → World H V → Body H V E) → Exit E V → Fiber H V E → Bounce H V E
  unfolding bounce_on bounce_failed on_cause
  bounce_exit k (success v) f = bounce_on (k v f.world) f
  bounce_exit k (failure c) f = bounce_failed (on_cause c (push (success_cont k) f)).0

  abbrev pub bounce_registered :
      (V → World H V → Body H V E)
      → Option (Exit E V)
      → Registered H V E
      → Fiber H V E
      → Bounce H V E
  bounce_registered k (some x) r f = bounce_exit k x (resolved_now r f)
  bounce_registered k none r f = ended suspend (await_callback r (push (success_cont k) f))

  -- The switch of the trampoline, on the first effect of a FlatMap.
  unfoldable pub bounce : Async H V E → (V → World H V → Body H V E) → Fiber H V E → Bounce H V E
  unfolding bounce_on bounce_sync bounce_exit await_callback
  bounce (succeed v) k f = bounce_on (k v f.world) f
  bounce (sync thunk) k f = bounce_sync k (thunk f.world) f
  bounce (fail e) k f = left (record f { stack = success_cont k ∷ f.stack; current = fail e })
  bounce (async register) k f =
      if f.finishing
      then left (record f { current = flat_map (async register) k })
      else let r = register f.world in bounce_registered k r.resolved r f
  bounce (fold a h s) k f =
      again (record f { stack = fold_cont h s ∷ success_cont k ∷ f.stack; current = a })
  bounce e k f = left (record f { stack = success_cont k ∷ f.stack; current = e })

  -- `cur` of the trampoline, once it is no left-nested FlatMap.
  unfoldable pub bounce_from : Async H V E → Fiber H V E → Bounce H V E
  unfolding bounce
  bounce_from (flat_map a k) f = bounce a k f
  bounce_from e f = left (record f { current = e })

  unfoldable pub trampoline_round : Fiber H V E → Bounce H V E
  unfolding bounce_from descend
  trampoline_round f =
      let (e, s) = descend f.current f.stack in bounce_from e (record f { stack = s })

  abbrev pub is_flat_map : Async H V E → Bool
  is_flat_map (flat_map a k) = true
  is_flat_map e = false

  -- What follows a round of the switch: `next` is the loop with the budget that is left.
  abbrev pub after_exec :
      (Fiber H V E → StepDecision × Fiber H V E) → Round H V E → StepDecision × Fiber H V E
  after_exec next (go f) = if is_some f.result then (done, f) else next f
  after_exec next (stop d f) = (d, f)

  abbrev pub after_bounce :
      (Fiber H V E → StepDecision × Fiber H V E)
      → (Fiber H V E → StepDecision × Fiber H V E)
      → Bounce H V E
      → StepDecision × Fiber H V E
  after_bounce on_again on_left (again f) = on_again f
  after_bounce on_again on_left (ended d f) = (d, f)
  after_bounce on_again on_left (left f) = on_left f

  -- What follows a return of the trampoline with CONTINUE and a budget `b`.
  unfoldable pub after_trampoline :
      Host H V E
      → ℕ
      → (Fiber H V E → StepDecision × Fiber H V E)
      → Fiber H V E
      → StepDecision × Fiber H V E
  unfolding exec
  after_trampoline host zero next f = if is_some f.result then (done, f) else (continue, f)
  after_trampoline host (suc b) next f =
      if is_some f.result then (done, f) else after_exec next (exec host f.current f)

  -- The loops of `step` (false) and of the trampoline (true), on what is left of the budget.
  unfoldable pub loop : Host H V E → ℕ → Bool → Fiber H V E → StepDecision × Fiber H V E
  unfolding after_trampoline trampoline_round
  loop host zero inside f = (continue, f)
  loop host (suc b) true f =
      after_bounce (loop host b true) (after_trampoline host b (loop host b false))
        (trampoline_round f)
  loop host (suc b) false f =
      let inner = loop host b true f in
      let outer = after_exec (loop host b false) (exec host f.current f) in
      if is_flat_map f.current then inner else outer

  unfoldable pub step : Host H V E → ℕ → Fiber H V E → StepDecision × Fiber H V E
  unfolding loop on_cause
  step host budget f =
      if is_some f.result
      then (done, f)
      else if should_interrupt_now f
      then (done, (on_cause interrupt f).0)
      else loop host budget false f

  unfoldable pub enqueued : Host H V E → ScheduleResult → Fiber H V E → Fiber H V E
  enqueued host accepted f = f
  enqueued host dropped f =
      notify (failure (die host.dropped)) (record f { run_state = RunState.finished })

  unfoldable pub schedule_from : Host H V E → ScheduleResult → RunState → Fiber H V E → Fiber H V E
  unfolding enqueued
  schedule_from host r RunState.finished f = f
  schedule_from host r RunState.queued f = f
  schedule_from host r RunState.suspended f =
      enqueued host r
        (record f { run_state = RunState.queued; events = f.events ++ (fiber_resume ∷ []) })
  schedule_from host r RunState.running f =
      enqueued host r (record f { run_state = RunState.queued })

  unfoldable pub schedule : Host H V E → ScheduleResult → Fiber H V E → Fiber H V E
  unfolding schedule_from
  schedule host r f = schedule_from host r f.run_state f

  -- What the task does with the decision of `step`.
  unfoldable pub decide : Host H V E → ScheduleResult → StepDecision × Fiber H V E → Fiber H V E
  unfolding schedule
  decide host r (continue, f) = schedule host r f
  decide host r (suspend, f) = record f {
    run_state = RunState.suspended;
    events = f.events ++ (fiber_suspend ∷ []);
  }
  decide host r (done, f) = record f { run_state = RunState.finished }

  -- `boundStep`, the task of the scheduler; `r` answers its call of `schedule`.
  unfoldable pub bound_step : Host H V E → ScheduleResult → ℕ → Fiber H V E → Fiber H V E
  unfolding step decide
  bound_step host r budget f = elim f.run_state [
    | RunState.finished ↦ f
    | _ ↦ decide host r (step host budget (record f { run_state = RunState.running }))
  ]

  unfoldable pub interrupt_fiber : Host H V E → ScheduleResult → Fiber H V E → Fiber H V E
  unfolding schedule
  interrupt_fiber host r f =
      if is_some f.result
      then f
      else if f.interrupted
      then f
      else let g = record f { interrupted = true } in if g.depth == 0 then schedule host r g else g

  -- What the callback does with its exit once it has accepted it.
  unfoldable pub resume_later : Host H V E → ScheduleResult → Exit E V → Fiber H V E → Fiber H V E
  unfolding schedule on_cause
  resume_later host r (success v) f = schedule host r (record f { current = succeed v })
  resume_later host r (failure c) f =
      let (g, handled) = on_cause c f in if handled then schedule host r g else g

  -- `_asyncCb` once `register` has returned.
  unfoldable pub async_cb : Host H V E → ScheduleResult → Exit E V → Fiber H V E → Fiber H V E
  unfolding resume_later
  async_cb host r x f =
      if f.sync_resolved
      then f
      else if is_some f.result
      then f
      else if is_some f.closing
      then f
      else let g = record f {
        sync_resolved = true;
        finalizers = detach_at f.detach f.finalizers;
        detach = none;
      } in
        resume_later host r x g
