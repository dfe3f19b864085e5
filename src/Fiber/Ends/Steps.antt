-- ===== src/Fiber/Ends/Steps.antt =====
-- The end of a step, by recursion on the effect and on the stack.
use brass_runtime.Base.{ℕ, false, List, [], ◌∷◌, none, is_some, ◌≡◌, either_branch}
use brass_runtime.Async.{
  Async, Body, returns, throws, succeed, fail, sync, async, flat_map, fold, fork, interruptibility,
  interruptibility_mask, interruptibility_restore, fiber_ref_locally,
}
use brass_runtime.Fiber.State.{
  StepDecision, Frame, success_cont, fold_cont, interruptibility_cont, fiber_ref_cont, Fiber, Host,
  should_interrupt_now,
}
use brass_runtime.Fiber.Machine.{step}
use brass_runtime.Fiber.Ends.{IsOver, IsGood, EndsBody}
use brass_runtime.Fiber.Ends.Frames.{
  empty-IsGood, success_cont-IsGood, fold_cont-IsGood, interruptibility_cont-IsGood,
  fiber_ref_cont-IsGood,
}
use brass_runtime.Fiber.Ends.Effects.{
  Deep, succeed-Deep, fail-Deep, sync-Deep, async-Deep, flat_map-Deep, fold-Deep, fork-Deep,
  interruptibility-Deep, mask-Deep, restore-Deep, locally-Deep,
}

module _ {H V E : Type 0} (host : Host H V E) where
  mutual
    every_effect : (e : Async H V E) → Deep host e
    every_effect (succeed v) = succeed-Deep host v
    every_effect (fail e) = fail-Deep host e
    every_effect (sync thunk) = sync-Deep host thunk
    every_effect (async register) = async-Deep host register
    every_effect (flat_map a k) =
        flat_map-Deep host a k (every_effect a) (λ v w. every_body (k v w))
    every_effect (fold a h k) =
        fold-Deep host a h k (every_effect a).0 (λ e w. every_body (h e w))
          (λ v w. every_body (k v w))
    every_effect (fork e scope) = fork-Deep host e scope
    every_effect (interruptibility m e) = interruptibility-Deep host m e (every_effect e).0
    every_effect (interruptibility_mask body) = mask-Deep host body (λ d w. every_body (body d w))
    every_effect (interruptibility_restore d e) = restore-Deep host d e (every_effect e).0
    every_effect (fiber_ref_locally n v e) = locally-Deep host n v e (every_effect e).0

    every_body : (b : Body H V E) → EndsBody host b
    every_body (returns e w) = (every_effect e).0
    every_body (throws x w) = tt

  -- Every stack is good.
  every_stack : (s : List (Frame H V E)) → IsGood host s
  every_stack [] = empty-IsGood host
  every_stack (success_cont k ∷ s) =
      success_cont-IsGood host k (λ v w. every_body (k v w)) s (every_stack s)
  every_stack (fold_cont h k ∷ s) =
      fold_cont-IsGood host h k (λ e w. every_body (h e w)) (λ v w. every_body (k v w)) s
        (every_stack s)
  every_stack (interruptibility_cont d ∷ s) = interruptibility_cont-IsGood host d s (every_stack s)
  every_stack (fiber_ref_cont n p ∷ s) = fiber_ref_cont-IsGood host n p s (every_stack s)

  -- A fiber that is not ending comes to a step that waits or is done, with enough budget.
  pub step_ends :
      (f : Fiber H V E)
      → f.finishing ≡ false
      → f.closing ≡ none
      → (budget : ℕ) × IsOver host (step host budget f).0
  unfolding step
  step_ends f n c =
      let r = (every_effect f.current).0 f.stack f (every_stack f.stack) (n, c) in
      (
        r.outer.0,
        either_branch (λ (r : StepDecision × Fiber H V E). IsOver host r.0) (is_some f.result)
            (λ _. tt)
            (λ _.
              either_branch (λ (r : StepDecision × Fiber H V E). IsOver host r.0)
                (should_interrupt_now f) (λ _. tt) (λ _. r.outer.1)),
      )
