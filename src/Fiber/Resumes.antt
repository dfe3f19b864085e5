-- ===== src/Fiber/Resumes.antt =====
-- What the callback of an operation does to the run state of the fiber that waits for it.
use brass_runtime.Base.{
  subst, Bool, true, false, List, [], ◌∷◌, Option, none, some, ◌≡◌, refl, arith, ◌⊎◌, inl, inr,
  if◌then◌else◌, is_some,
}
use brass_runtime.Effect.{Cause, Exit, success, failure, is_failure_only, first_failure}
use brass_runtime.Async.{World, Body, returns, throws, succeed}
use brass_runtime.Fiber.State.{
  RunState, Frame, success_cont, fold_cont, interruptibility_cont, fiber_ref_cont, Fiber, Host,
  notify, finish, restored_ref,
}
use brass_runtime.Fiber.Unwind.{choose_handler, handled_by, pop_cause, on_cause}
use brass_runtime.Fiber.Machine.{accepted, schedule_from, schedule, resume_later}

module _ {H V E : Type 0} where
  -- A fiber that was not over is in the scheduler's queue, or has ended.
  abbrev pub Scheduled : RunState → Fiber H V E → Type 0
  Scheduled before f =
      (f.run_state ≡ RunState.queued) ⊎ ((before ≡ RunState.finished) ⊎ is_some f.result ≡ true)

  -- A handler of the fiber took over a cause, and the fiber is in the state it was in, or the fiber
  -- has ended.
  abbrev Handled : RunState → Fiber H V E × Bool → Type 0
  Handled before (g, handled) =
      (handled ≡ true) × (g.run_state ≡ before) ⊎ (handled ≡ false) × (is_some g.result ≡ true)

  notify-ended :
      (x : Exit E V) (f : Fiber H V E) → f.closing ≡ none → is_some (notify x f).result ≡ true
  unfolding notify finish
  notify-ended x f n = ground (arith, n)

  handled_by-Handled :
      (before : RunState) (thrown : E → World H V → Fiber H V E × Bool) (body : Body H V E)
      (f : Fiber H V E)
      → f.run_state ≡ before
      → ((e : E) (w : World H V) → Handled before (thrown e w))
      → Handled before (handled_by thrown body f)
  unfolding handled_by
  handled_by-Handled before thrown (returns a w) f e h = inl (refl, e)
  handled_by-Handled before thrown (throws x w) f e h = h x w

  choose_handler-Handled :
      (before : RunState) (failures : Bool) (first : Option E)
      (unhandled broken : Fiber H V E × Bool) (handled : E → Fiber H V E × Bool)
      → Handled before unhandled
      → Handled before broken
      → ((e : E) → Handled before (handled e))
      → Handled before (choose_handler failures first unhandled broken handled)
  choose_handler-Handled before false first unhandled broken handled u b h = u
  choose_handler-Handled before true none unhandled broken handled u b h = b
  choose_handler-Handled before true (some e) unhandled broken handled u b h = h e

  pop_cause-Handled :
      (s : List (Frame H V E)) (c : Cause E) (f : Fiber H V E)
      → f.closing ≡ none
      → Handled f.run_state (pop_cause s c f)
  unfolding pop_cause
  pop_cause-Handled [] c f n = inr (refl, notify-ended (failure c) (record f { stack = [] }) n)
  pop_cause-Handled (interruptibility_cont d ∷ s) c f n =
      pop_cause-Handled s _ (record f { stack = s; depth = d }) n
  pop_cause-Handled (fiber_ref_cont k p ∷ s) c f n =
      pop_cause-Handled s c (record f { stack = s; world = restored_ref k p f.world }) n
  pop_cause-Handled (success_cont k ∷ s) c f n = pop_cause-Handled s c (record f { stack = s }) n
  pop_cause-Handled (fold_cont h k ∷ s) c f n =
      let g = record f { stack = s } in
      choose_handler-Handled f.run_state (is_failure_only c) (first_failure c) _ _ _
        (pop_cause-Handled s c g n) (inr (refl, notify-ended (failure c) g n))
        (λ e.
          handled_by-Handled f.run_state _ (h e f.world) g refl
            (λ x w. pop_cause-Handled s (Cause.fail x) (record g { world = w }) n))

module _ {H V E : Type 0} (host : Host H V E) where
  schedule_from-Scheduled :
      (s : RunState) (f : Fiber H V E)
      → f.run_state ≡ s
      → Scheduled s (schedule_from host accepted s f)
  unfolding schedule_from
  schedule_from-Scheduled RunState.finished f e = inr (inl refl)
  schedule_from-Scheduled RunState.queued f e = inl e
  schedule_from-Scheduled RunState.suspended f e = inl refl
  schedule_from-Scheduled RunState.running f e = inl refl

  Handled-Scheduled :
      (before : RunState) (r : Fiber H V E × Bool)
      → Handled before r
      → Scheduled before (if r.1 then schedule host accepted r.0 else r.0)
  unfolding schedule
  Handled-Scheduled before (g, true) (inl (_, e)) =
      subst (λ (s : RunState). Scheduled s (schedule host accepted g)) e
        (schedule_from-Scheduled g.run_state g refl)
  Handled-Scheduled before (g, true) (inr (off, _)) = absurd (apart off)
    where
      apart : ◌≡◌ {A = Bool} true false → ⊥
      apart p = cc
  Handled-Scheduled before (g, false) (inl (off, _)) = absurd (apart off)
    where
      apart : ◌≡◌ {A = Bool} false true → ⊥
      apart p = cc
  Handled-Scheduled before (g, false) (inr (_, e)) = inr (inr e)

  pub resume_later-Scheduled :
      (x : Exit E V) (f : Fiber H V E)
      → f.closing ≡ none
      → Scheduled f.run_state (resume_later host accepted x f)
  unfolding resume_later schedule on_cause
  resume_later-Scheduled (success v) f n =
      schedule_from-Scheduled f.run_state (record f { current = succeed v }) refl
  resume_later-Scheduled (failure c) f n =
      Handled-Scheduled f.run_state (on_cause c f) (pop_cause-Handled f.stack c f n)
