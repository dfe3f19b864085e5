-- ===== src/Fiber/Refines.antt =====
-- A step of the fiber, with its budget and its trampoline, comes to what the reference says.
use brass_runtime.Base.{
  ℕ, suc, zero, Bool, true, false, List, ◌≡◌, refl, inl, inr, subst, Bool-cases,
}
use brass_runtime.Effect.{Exit}
use brass_runtime.Async.{World, Async, flat_map, succeed}
use brass_runtime.Fiber.State.{
  StepDecision, continue, suspend, done, Finalizer, Fiber, Host, should_interrupt_now,
}
use brass_runtime.Fiber.Machine.{
  Round, go, stop, Bounce, again, left, is_flat_map, exec, trampoline_round, after_exec,
  after_bounce, after_trampoline, loop, step,
}
use brass_runtime.Fiber.Calm.{Steady, IsCalm}
use brass_runtime.Fiber.Eval.{Verdict, meaning}
use brass_runtime.Fiber.Rounds.{Lives, HasEnded, comes_to}
use brass_runtime.Fiber.Rounds.Switch.{Suspends, exec-Right, target}
use brass_runtime.Fiber.Rounds.Switch
use brass_runtime.Fiber.Rounds.Bounces.{trampoline_round-Right}
use brass_runtime.Fiber.Rounds.Bounces

module _ {H V E : Type 0} (host : Host H V E) (i : Bool) (fins : List (Finalizer H V E))
    (js : List (Exit E V → World H V → World H V)) where
  -- A step that yields has kept what the fiber comes to; one that suspends or is done has come to
  -- it.
  abbrev pub StepRight : Verdict H V E → StepDecision × Fiber H V E → Type 0
  StepRight t (continue, g) = Lives host i fins js g × (comes_to host i fins js g ≡ t) × IsCalm g
  StepRight t (suspend, g) = Suspends host i fins js t g
  StepRight t (done, g) = HasEnded host i fins js t g

  abbrev Next : (Fiber H V E → StepDecision × Fiber H V E) → Type 0
  Next next =
      (g : Fiber H V E)
      → Lives host i fins js g
      → IsCalm g
      → StepRight (comes_to host i fins js g) (next g)

  after_exec-StepRight :
      (next : Fiber H V E → StepDecision × Fiber H V E) (t : Verdict H V E) (r : Round H V E)
      → Next next
      → Switch.Right host i fins js t r
      → StepRight t (after_exec next r)
  after_exec-StepRight next t (go g) n (inl (l, e, c)) =
      simp l.no_result (subst (λ v. StepRight v (next g)) e (n g l c))
  after_exec-StepRight next t (go g) n (inr (x, w, s, e, r, h)) = simp r (x, w, s, e, refl, h)
  after_exec-StepRight next t (stop continue g) n (e, h) = cc
  after_exec-StepRight next t (stop suspend g) n (e, h) = h
  after_exec-StepRight next t (stop done g) n (e, h) = cc

  after_trampoline-StepRight :
      (b : ℕ) (next : Fiber H V E → StepDecision × Fiber H V E) (t : Verdict H V E)
      (g : Fiber H V E)
      → Next next
      → Bounces.Right host i fins js t (left g)
      → StepRight t (after_trampoline host b next g)
  unfolding after_trampoline
  after_trampoline-StepRight zero next t g n (l, e, c, y) = simp l.no_result (l, e, c)
  after_trampoline-StepRight (suc b) next t g n (l, e, c, y) = simp l.no_result (
      after_exec-StepRight next t (exec host g.current g) n (
        subst (λ v. Switch.Right host i fins js v (exec host g.current g)) e
          (exec-Right host i fins js g.current g l c.0 c.1 y)))

  after_bounce-StepRight :
      (b : ℕ) (next inner : Fiber H V E → StepDecision × Fiber H V E) (t : Verdict H V E)
      (r : Bounce H V E)
      → Next next
      → Next inner
      → Bounces.Right host i fins js t r
      → StepRight t (after_bounce inner (after_trampoline host b next) r)
  after_bounce-StepRight b next inner t (again g) n m (l, e, c) =
      subst (λ v. StepRight v (inner g)) e (m g l c)
  after_bounce-StepRight b next inner t (Bounce.ended continue g) n m h = absurd h
  after_bounce-StepRight b next inner t (Bounce.ended suspend g) n m h = h
  after_bounce-StepRight b next inner t (Bounce.ended done g) n m h = h
  after_bounce-StepRight b next inner t (left g) n m h = after_trampoline-StepRight b next t g n h

  plain-Steady : (e : Async H V E) → is_flat_map e ≡ false → Steady e
  plain-Steady (flat_map a k) n = cc
  plain-Steady (succeed v) n = tt
  plain-Steady e n = tt

  pub loop-StepRight : (b : ℕ) (inside : Bool) → Next (loop host b inside)
  unfolding loop
  loop-StepRight zero inside f l c = (l, refl, c)
  loop-StepRight (suc b) true f l c =
      after_bounce-StepRight b (loop host b false) (loop host b true) _ (trampoline_round f)
        (loop-StepRight b false) (loop-StepRight b true)
        (trampoline_round-Right host i fins js f l c)
  loop-StepRight (suc b) false f l c = elim (Bool-cases (is_flat_map f.current)) [
    | inl e ↦ simp e (loop-StepRight b true f l c)
    | inr e ↦ simp e (
        after_exec-StepRight (loop host b false) _ (exec host f.current f) (loop-StepRight b false)
          (exec-Right host i fins js f.current f l c.0 c.1 (plain-Steady f.current e)))
  ]

module _ {H V E : Type 0} (host : Host H V E) where
  -- A fiber that has not ended.
  abbrev pub IsRunning : Fiber H V E → Type 0
  IsRunning f = Lives host f.interrupted f.finalizers f.joiners f

  -- One step of a running fiber that has no interruption to obey, with any budget, agrees with the
  -- reference, provided that no handler in reach returns a FlatMap directly over a thunk that may
  -- throw: if it yields, the fiber is still running and comes to the same; if it suspends, the
  -- reference waits too, for a callback at the same stack, world and depth, and the canceler is the
  -- last finalizer; if it is done, the result is the exit of the reference, and on the world of the
  -- reference the finalizers have run, the latest first, and then the joiners.
  pub step_refines :
      (budget : ℕ) (f : Fiber H V E)
      → IsRunning f
      → IsCalm f
      → should_interrupt_now f ≡ false
      → StepRight host f.interrupted f.finalizers f.joiners (meaning host f) (step host budget f)
  unfolding step
  step_refines budget f l c n =
      simp (l.no_result, n)
        (loop-StepRight host f.interrupted f.finalizers f.joiners budget false f l c)
