-- ===== src/Fiber/Ends/Calls.antt =====
-- The end of a step: what follows the calls of continuations, thunks and register functions.
use brass_runtime.Base.{List, ◌∷◌, Option, some, none, is_some, inl, inr, either_branch}
use brass_runtime.Effect.{Cause, Exit, success, failure, die}
use brass_runtime.Async.{World, Call, returned, threw, Registered, Body, returns, throws}
use brass_runtime.Fiber.State.{Frame, success_cont, Fiber, Host}
use brass_runtime.Fiber.Unwind.{pop_cause, on_success, on_cause, on_failure}
use brass_runtime.Fiber.Machine.{
  bounce_on, bounce_failed, run_sync, run_mask, resume_with, bounce_sync, bounce_exit,
  bounce_registered, settle_registered, resolved_now,
}
use brass_runtime.Fiber.Ends.{IsFine, RoundFine, BounceFine, IsFresh, IsGood, EndsBody}
use brass_runtime.Fiber.Ends.Frames.{success_cont-IsGood}

module _ {H V E : Type 0} (host : Host H V E) where
  -- What the bodies of a continuation are to satisfy.
  abbrev pub EndsAll : (V → World H V → Body H V E) → Type 0
  EndsAll k = (v : V) (w : World H V) → EndsBody host (k v w)

  pub bounce_on-BounceFine :
      (b : Body H V E)
      → EndsBody host b
      → (s : List (Frame H V E)) (f : Fiber H V E) → IsGood host s
      → IsFresh host f
      → BounceFine host (bounce_on b (record f { stack = s }))
  unfolding bounce_on
  bounce_on-BounceFine (returns e w) h s f good fresh = h s (record f { world = w }) good fresh
  bounce_on-BounceFine (throws x w) h s f good fresh = tt

  pub bounce_failed-BounceFine :
      (f : Fiber H V E) → IsFine host f → BounceFine host (bounce_failed f)
  unfolding bounce_failed
  bounce_failed-BounceFine f fine =
      either_branch (BounceFine host) (is_some f.result) (λ _. tt)
        (λ n. elim fine [ inl y ↦ inl y | inr r ↦ inr r.switched ])

  pub bounce_exit-BounceFine :
      (k : V → World H V → Body H V E)
      → EndsAll k
      → (x : Exit E V) (s : List (Frame H V E)) (f : Fiber H V E) → IsGood host s
      → IsFresh host f
      → BounceFine host (bounce_exit k x (record f { stack = s }))
  unfolding bounce_exit on_cause
  bounce_exit-BounceFine k ks (success v) s f good fresh =
      bounce_on-BounceFine (k v f.world) (ks v f.world) s f good fresh
  bounce_exit-BounceFine k ks (failure c) s f good fresh =
      bounce_failed-BounceFine
        (pop_cause (success_cont k ∷ s) c (record f { stack = success_cont k ∷ s })).0
        ((success_cont-IsGood host k ks s good).on_failed c
          (record f { stack = success_cont k ∷ s }) fresh)

  pub bounce_sync-BounceFine :
      (k : V → World H V → Body H V E)
      → EndsAll k
      → (r : Call H V E) (s : List (Frame H V E)) (f : Fiber H V E) → IsGood host s
      → IsFresh host f
      → BounceFine host (bounce_sync k r (record f { stack = s }))
  unfolding bounce_sync
  bounce_sync-BounceFine k ks (returned v w) s f good fresh =
      bounce_on-BounceFine (k v w) (ks v w) s (record f { world = w }) good fresh
  bounce_sync-BounceFine k ks (threw x w) s f good fresh = tt

  pub bounce_registered-BounceFine :
      (k : V → World H V → Body H V E)
      → EndsAll k
      → (o : Option (Exit E V)) (r : Registered H V E) (s : List (Frame H V E)) (f : Fiber H V E)
      → IsGood host s
      → IsFresh host f
      → BounceFine host (bounce_registered k o r (record f { stack = s }))
  bounce_registered-BounceFine k ks (some x) r s f good fresh =
      bounce_exit-BounceFine k ks x s (resolved_now r f) good fresh
  bounce_registered-BounceFine k ks none r s f good fresh = tt

  pub run_sync-IsFine :
      (r : Call H V E) (s : List (Frame H V E)) (f : Fiber H V E)
      → IsGood host s
      → IsFresh host f
      → IsFine host (run_sync r (record f { stack = s }))
  unfolding run_sync on_success on_failure on_cause
  run_sync-IsFine (returned v w) s f good fresh =
      good.on_value v (record f { stack = s; world = w }) fresh
  run_sync-IsFine (threw e w) s f good fresh =
      good.on_failed (Cause.fail e) (record f { stack = s; world = w }) fresh

  pub run_mask-IsFine :
      (b : Body H V E)
      → EndsBody host b
      → (s : List (Frame H V E)) (f : Fiber H V E) → IsGood host s
      → IsFresh host f
      → IsFine host (run_mask b (record f { stack = s }))
  unfolding run_mask on_cause
  run_mask-IsFine (returns e w) h s f good fresh = inr (h s (record f { world = w }) good fresh)
  run_mask-IsFine (throws x w) h s f good fresh =
      good.on_failed (die x) (record f { stack = s; world = w }) fresh

  pub settle_registered-RoundFine :
      (o : Option (Exit E V)) (r : Registered H V E) (s : List (Frame H V E)) (f : Fiber H V E)
      → IsGood host s
      → IsFresh host f
      → RoundFine host (settle_registered o r (record f { stack = s }))
  unfolding resume_with on_success on_cause
  settle_registered-RoundFine (some (success v)) r s f good fresh =
      good.on_value v (resolved_now r (record f { stack = s })) fresh
  settle_registered-RoundFine (some (failure c)) r s f good fresh =
      good.on_failed c (resolved_now r (record f { stack = s })) fresh
  settle_registered-RoundFine none r s f good fresh = tt
