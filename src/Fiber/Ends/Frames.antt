-- ===== src/Fiber/Ends/Frames.antt =====
-- The end of a step: each frame of the stack.
use brass_runtime.Base.{
  ℕ, Bool, true, false, List, [], ◌∷◌, Option, some, none, is_some, refl, inl, inr, either_branch,
}
use brass_runtime.Effect.{
  Cause, Exit, success, failure, die, interrupt, is_failure_only, first_failure,
}
use brass_runtime.Async.{World, Body, returns, throws}
use brass_runtime.Fiber.State.{
  Frame, success_cont, fold_cont, interruptibility_cont, fiber_ref_cont, Fiber, Host, notify,
  restore_fiber_ref, should_interrupt_now,
}
use brass_runtime.Fiber.Unwind.{
  continue_with, pop_success, pop_cause, leaving, handled_by, choose_handler,
}
use brass_runtime.Fiber.Ends.{IsFine, IsFresh, IsGood, EndsBody}

module _ {H V E : Type 0} (host : Host H V E) where
  pub notify-IsFine : (x : Exit E V) (f : Fiber H V E) → IsFresh host f → IsFine host (notify x f)
  unfolding notify
  notify-IsFine x f (_, c) =
      either_branch (IsFine host) (is_some f.result) inl
        (λ _. either_branch (IsFine host) (is_some f.closing) (λ t. absurd (cc)) (λ _. inl refl))

  -- What follows a call of a continuation that was taken off the stack.
  continue_with-IsFine :
      (b : Body H V E)
      → EndsBody host b
      → (s : List (Frame H V E)) (f : Fiber H V E) → IsGood host s
      → IsFresh host f
      → IsFine host (continue_with b (record f { stack = s }))
  unfolding continue_with
  continue_with-IsFine (returns e w) h s f good fresh =
      inr (h s (record f { world = w }) good fresh)
  continue_with-IsFine (throws x w) h s f good fresh =
      notify-IsFine (failure (die x)) (record f { world = w; stack = s }) fresh

  pub empty-IsGood : IsGood host []
  unfolding pop_success pop_cause
  empty-IsGood = record {
    on_value = λ v f fresh.
        either_branch (IsFine host) (should_interrupt_now (record f { stack = [] }))
          (λ _. notify-IsFine (failure interrupt) (record f { stack = [] }) fresh)
          (λ _. notify-IsFine (success v) (record f { stack = [] }) fresh);
    on_failed = λ c f fresh. notify-IsFine (failure c) (record f { stack = [] }) fresh;
  }

  pub success_cont-IsGood :
      (k : V → World H V → Body H V E)
      → ((v : V) (w : World H V) → EndsBody host (k v w))
      → (s : List (Frame H V E)) → IsGood host s
      → IsGood host (success_cont k ∷ s)
  unfolding pop_success pop_cause
  success_cont-IsGood k ks s good = record {
    on_value = λ v f fresh. continue_with-IsFine (k v f.world) (ks v f.world) s f good fresh;
    on_failed = λ c f fresh. good.on_failed c (record f { stack = s }) fresh;
  }

  handled_by-IsFine :
      (b : Body H V E)
      → EndsBody host b
      → (s : List (Frame H V E)) (f : Fiber H V E) → IsGood host s
      → IsFresh host f
      → IsFine host
          (handled_by
            (λ x w. pop_cause s (Cause.fail x) (record f { stack = s; world = w }))
            b
            (record f { stack = s })).0
  unfolding handled_by
  handled_by-IsFine (returns e w) h s f good fresh = inr (h s (record f { world = w }) good fresh)
  handled_by-IsFine (throws x w) h s f good fresh =
      good.on_failed (Cause.fail x) (record f { stack = s; world = w }) fresh

  choose_handler-IsFine :
      (b : Bool) (o : Option E) (x y : Fiber H V E × Bool) (k : E → Fiber H V E × Bool)
      → IsFine host x.0
      → IsFine host y.0
      → ((e : E) → IsFine host (k e).0)
      → IsFine host (choose_handler b o x y k).0
  choose_handler-IsFine false o x y k hx hy hk = hx
  choose_handler-IsFine true none x y k hx hy hk = hy
  choose_handler-IsFine true (some e) x y k hx hy hk = hk e

  pub fold_cont-IsGood :
      (h : E → World H V → Body H V E) (k : V → World H V → Body H V E)
      → ((e : E) (w : World H V) → EndsBody host (h e w))
      → ((v : V) (w : World H V) → EndsBody host (k v w))
      → (s : List (Frame H V E)) → IsGood host s
      → IsGood host (fold_cont h k ∷ s)
  unfolding pop_success pop_cause
  fold_cont-IsGood h k hs ks s good = record {
    on_value = λ v f fresh. continue_with-IsFine (k v f.world) (ks v f.world) s f good fresh;
    on_failed = λ c f fresh.
        choose_handler-IsFine (is_failure_only c) (first_failure c) _ _ _
          (good.on_failed c (record f { stack = s }) fresh)
          (notify-IsFine (failure c) (record f { stack = s }) fresh)
          (λ e. handled_by-IsFine (h e f.world) (hs e f.world) s f good fresh);
  }

  pub interruptibility_cont-IsGood :
      (d : ℕ) (s : List (Frame H V E)) → IsGood host s → IsGood host (interruptibility_cont d ∷ s)
  unfolding pop_success pop_cause
  interruptibility_cont-IsGood d s good = record {
    on_value = λ v f fresh.
        either_branch (IsFine host) (should_interrupt_now (record f { stack = s; depth = d }))
          (λ _. notify-IsFine (failure interrupt) (record f { stack = s; depth = d }) fresh)
          (λ _. good.on_value v (record f { stack = s; depth = d }) fresh);
    on_failed = λ c f fresh.
        let g = record f { stack = s; depth = d } in
        good.on_failed (leaving (should_interrupt_now g) c) g fresh;
  }

  pub fiber_ref_cont-IsGood :
      (n : ℕ) (p : Option V) (s : List (Frame H V E))
      → IsGood host s
      → IsGood host (fiber_ref_cont n p ∷ s)
  unfolding pop_success pop_cause restore_fiber_ref
  fiber_ref_cont-IsGood n p s good = record {
    on_value = λ v f fresh. good.on_value v (restore_fiber_ref n p (record f { stack = s })) fresh;
    on_failed =
        λ c f fresh. good.on_failed c (restore_fiber_ref n p (record f { stack = s })) fresh;
  }
