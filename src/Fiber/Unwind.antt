-- ===== src/Fiber/Unwind.antt =====
-- fiber.ts, lines 356-442: a value or a cause runs down the stack of frames.
use brass_runtime.Base.{
  Bool, true, false, not, ◌&&◌, List, [], ◌∷◌, Option, none, some, if◌then◌else◌,
}
use brass_runtime.Effect.{
  Cause, success, failure, interrupt, die, and_then, is_interrupted_only, is_failure_only,
  first_failure,
}
use brass_runtime.Async.{World, Body, returns, throws}
use brass_runtime.Fiber.State.{
  Frame, success_cont, fold_cont, interruptibility_cont, fiber_ref_cont, Fiber, restore_fiber_ref,
  notify, should_interrupt_now,
}

-- The cause that leaves an interruptibility region, once its depth is restored.
unfoldable pub leaving : {E : Type 0} → Bool → Cause E → Cause E
leaving now c = if now && not (is_interrupted_only c) then and_then c interrupt else c

-- Whether a FoldCont handles a cause: not unless the cause consists of failures; the code breaks
-- off if it then finds no failure; else the handler takes the first one.
module _ {E A : Type 0} where
  abbrev pub choose_handler : Bool → Option E → A → A → (E → A) → A
  choose_handler false o unhandled broken handled = unhandled
  choose_handler true none unhandled broken handled = broken
  choose_handler true (some e) unhandled broken handled = handled e

module _ {H V E : Type 0} where
  -- `try { this.current = k(value) } catch (e) { this.notify(die(e)) }`
  unfoldable pub continue_with : Body H V E → Fiber H V E → Fiber H V E
  continue_with (returns e w) f = record f { current = e; world = w }
  continue_with (throws x w) f = notify (failure (die x)) (record f { world = w })

  -- The list is what is left of the stack.
  unfoldable pub pop_success : List (Frame H V E) → V → Fiber H V E → Fiber H V E
  unfolding continue_with should_interrupt_now restore_fiber_ref
  pop_success [] v f =
      let g = record f { stack = [] } in
      if should_interrupt_now g then notify (failure interrupt) g else notify (success v) g
  pop_success (interruptibility_cont d ∷ s) v f =
      let g = record f { stack = s; depth = d } in
      let rest = pop_success s v g in
      if should_interrupt_now g then notify (failure interrupt) g else rest
  pop_success (fiber_ref_cont k p ∷ s) v f =
      pop_success s v (restore_fiber_ref k p (record f { stack = s }))
  pop_success (success_cont k ∷ s) v f = continue_with (k v f.world) (record f { stack = s })
  pop_success (fold_cont h k ∷ s) v f = continue_with (k v f.world) (record f { stack = s })

  unfoldable pub on_success : V → Fiber H V E → Fiber H V E
  unfolding pop_success
  on_success v f = pop_success f.stack v f

  -- `this.current = fr.onFailure(failure.value); return true`, or what follows a throw.
  unfoldable pub handled_by :
      (E → World H V → Fiber H V E × Bool) → Body H V E → Fiber H V E → Fiber H V E × Bool
  handled_by thrown (returns a w) f = (record f { current = a; world = w }, true)
  handled_by thrown (throws x w) f = thrown x w

  -- The Boolean says whether a handler took over.
  unfoldable pub pop_cause : List (Frame H V E) → Cause E → Fiber H V E → Fiber H V E × Bool
  unfolding should_interrupt_now restore_fiber_ref handled_by
  pop_cause [] c f = (notify (failure c) (record f { stack = [] }), false)
  pop_cause (interruptibility_cont d ∷ s) c f =
      let g = record f { stack = s; depth = d } in
      pop_cause s (leaving (should_interrupt_now g) c) g
  pop_cause (fiber_ref_cont k p ∷ s) c f =
      pop_cause s c (restore_fiber_ref k p (record f { stack = s }))
  pop_cause (success_cont k ∷ s) c f = pop_cause s c (record f { stack = s })
  pop_cause (fold_cont h k ∷ s) c f =
      let unhandled = pop_cause s c (record f { stack = s }) in
      let thrown =
        λ (x : E) (w : World H V). pop_cause s (Cause.fail x) (record f { stack = s; world = w }) in
      choose_handler (is_failure_only c) (first_failure c) unhandled
        (notify (failure c) (record f { stack = s }), false)
        (λ e. handled_by thrown (h e f.world) (record f { stack = s }))

  unfoldable pub on_cause : Cause E → Fiber H V E → Fiber H V E × Bool
  unfolding pop_cause
  on_cause c f = pop_cause f.stack c f

  unfoldable pub on_failure : E → Fiber H V E → Fiber H V E
  unfolding on_cause
  on_failure e f = (on_cause (Cause.fail e) f).0
