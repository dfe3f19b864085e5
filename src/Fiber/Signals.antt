-- ===== src/Fiber/Signals.antt =====
-- What comes to a fiber from outside: interruptions and the callbacks of its operations.
use brass_runtime.Base.{
  subst, sym, ℕ, Bool, true, false, List, [], ◌∷◌, none, some, ◌≡◌, refl, arith, inl, inr,
  if◌then◌else◌,
}
use brass_runtime.Effect.{
  Cause, Exit, success, failure, interrupt, is_interrupted_only, is_failure_only,
}
use brass_runtime.Async.{World, succeed}
use brass_runtime.Fiber.State.{
  RunState, Event, done, Frame, success_cont, fold_cont, interruptibility_cont, fiber_ref_cont,
  Finalizer, Fiber, Host, detach_at, notify, should_interrupt_now, restored_ref,
}
use brass_runtime.Fiber.Unwind.{pop_cause, on_cause, leaving}
use brass_runtime.Fiber.Machine.{accepted, schedule_from, schedule, step, resume_later, async_cb}
use brass_runtime.Fiber.Resumes.{Scheduled, resume_later-Scheduled}
use brass_runtime.Fiber.Calm.{CalmStack, Calm}
use brass_runtime.Fiber.Rounds.Switch.{target, weaken, on_cause-Reaches}
use brass_runtime.Fiber.Refines.{IsRunning}
use brass_runtime.Fiber.Eval.{Verdict, eval, ended, unwind, conclude, context}
use brass_runtime.Fiber.Rounds.{Lives, Reaches}

module _ {H V E : Type 0} (host : Host H V E) (i : Bool) (fins : List (Finalizer H V E))
    (js : List (Exit E V → World H V → World H V)) where
  notify-result :
      (x : Exit E V) (f : Fiber H V E) → Lives host i fins js f → (notify x f).result ≡ some x
  unfolding notify
  notify-result x f l = ground (arith, l.no_result)

  leaving-interrupt : (now : Bool) → leaving {E = E} now interrupt ≡ interrupt
  unfolding leaving is_interrupted_only
  leaving-interrupt true = refl
  leaving-interrupt false = refl

  pop_interrupt :
      (s : List (Frame H V E)) (f : Fiber H V E)
      → Lives host i fins js f
      → (pop_cause s interrupt f).0.result ≡ some (failure interrupt)
  unfolding pop_cause is_failure_only
  pop_interrupt [] f l =
      notify-result (failure interrupt) (record f { stack = [] }) (ground (arith, l.no_result))
  pop_interrupt (interruptibility_cont d ∷ s) f l =
      let g = record f { stack = s; depth = d } in
      subst (λ (c : Cause E). (pop_cause s c g).0.result ≡ some (failure interrupt))
        (sym (leaving-interrupt (should_interrupt_now g)))
        (pop_interrupt s g (ground (arith, l.no_result)))
  pop_interrupt (fiber_ref_cont k p ∷ s) f l =
      pop_interrupt s (record f { stack = s; world = restored_ref k p f.world })
        (ground (arith, l.no_result))
  pop_interrupt (success_cont k ∷ s) f l =
      pop_interrupt s (record f { stack = s }) (ground (arith, l.no_result))
  pop_interrupt (fold_cont h k ∷ s) f l =
      pop_interrupt s (record f { stack = s }) (ground (arith, l.no_result))

  -- The next step of a running fiber that was interrupted, outside every uninterruptible region,
  -- ends it with a plain interruption, whatever its effect and whatever handlers are on its stack.
  pub step-interrupted :
      (budget : ℕ) (f : Fiber H V E)
      → Lives host i fins js f
      → should_interrupt_now f ≡ true
      → ((step host budget f).0 ≡ done) × ((step host budget f).1.result ≡ some (failure interrupt))
  unfolding step on_cause
  step-interrupted budget f l n = simp (l.no_result, n) (refl, pop_interrupt f.stack f l)

  -- A task that the scheduler accepts changes only the run state and the events.
  queued-Reaches :
      (f : Fiber H V E) (t : Verdict H V E) (r : RunState) (ev : List Event)
      → Reaches host i fins js t f
      → Reaches host i fins js t (record f { run_state = r; events = ev })
  queued-Reaches f t r ev (inl (l, e, c)) = inl (ground (arith, l.no_result), e, c)
  queued-Reaches f t r ev (inr h) = inr h

  schedule_from-Reaches :
      (s : RunState) (f : Fiber H V E) (t : Verdict H V E)
      → Reaches host i fins js t f
      → Reaches host i fins js t (schedule_from host accepted s f)
  unfolding schedule_from
  schedule_from-Reaches RunState.finished f t h = h
  schedule_from-Reaches RunState.queued f t h = h
  schedule_from-Reaches RunState.suspended f t h = queued-Reaches f t _ _ h
  schedule_from-Reaches RunState.running f t h = queued-Reaches f t _ _ h

  schedule-Reaches :
      (f : Fiber H V E) (t : Verdict H V E)
      → Reaches host i fins js t f
      → Reaches host i fins js t (schedule host accepted f)
  unfolding schedule
  schedule-Reaches f t h = schedule_from-Reaches f.run_state f t h

  handled-Reaches :
      (r : Fiber H V E × Bool) (t : Verdict H V E)
      → Reaches host i fins js t r.0
      → Reaches host i fins js t (if r.1 then schedule host accepted r.0 else r.0)
  handled-Reaches (g, true) t h = schedule-Reaches g t h
  handled-Reaches (g, false) t h = h

  resume_later-Reaches :
      (x : Exit E V) (f : Fiber H V E)
      → Lives host i fins js f
      → CalmStack f.stack
      → Reaches host i fins js
          (target host i fins js f (ended x (context f)))
          (resume_later host accepted x f)
  unfolding resume_later Calm eval
  resume_later-Reaches (success v) f l m =
      schedule-Reaches (record f { current = succeed v }) _
        (inl (ground (arith, l.no_result), refl, (tt, m)))
  resume_later-Reaches (failure c) f l m =
      handled-Reaches (on_cause c f) _
        (weaken host i fins js _ _ (on_cause-Reaches host i fins js c f l m))

module _ {H V E : Type 0} (host : Host H V E) where
  abbrev accepting : Fiber H V E → Fiber H V E
  accepting f = record f {
    sync_resolved = true;
    finalizers = detach_at f.detach f.finalizers;
    detach = none;
  }

  async_cb-eq :
      (x : Exit E V) (f : Fiber H V E)
      → IsRunning host f
      → f.sync_resolved ≡ false
      → async_cb host accepted x f ≡ resume_later host accepted x (accepting f)
  unfolding async_cb
  async_cb-eq x f l n = ground (arith, l.no_result)

  -- The callback of the operation for which a fiber waits hands its exit, a value or a cause, to
  -- the frames that were left on the stack, if the scheduler takes the task: the fiber comes to
  -- what the reference makes of that exit at those frames, or has ended so already, and the
  -- canceler of the operation is detached. A fiber whose run state was not `finished` is then in
  -- the queue of the scheduler, unless it has ended.
  pub async_cb-resumes :
      (x : Exit E V) (f : Fiber H V E)
      → IsRunning host f
      → CalmStack f.stack
      → f.sync_resolved ≡ false
      → Reaches host f.interrupted
          (detach_at f.detach f.finalizers)
          f.joiners
          (conclude f.interrupted (unwind host f.interrupted f.stack (ended x (context f))))
          (async_cb host accepted x f)
        × Scheduled f.run_state (async_cb host accepted x f)
  async_cb-resumes x f l m n = (
    subst
        (Reaches host f.interrupted (detach_at f.detach f.finalizers) f.joiners
          (conclude f.interrupted (unwind host f.interrupted f.stack (ended x (context f)))))
        (sym (async_cb-eq x f l n))
        (resume_later-Reaches host f.interrupted (detach_at f.detach f.finalizers) f.joiners x
          (accepting f) (ground (arith, l.no_result)) m),
    subst (Scheduled f.run_state) (sym (async_cb-eq x f l n))
        (resume_later-Scheduled host x (accepting f) (ground (arith, l.no_result))),
  )
