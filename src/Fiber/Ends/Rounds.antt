-- ===== src/Fiber/Ends/Rounds.antt =====
-- The end of a step: from one round to the loops.
use brass_runtime.Base.{ℕ, suc, zero, true, false, is_some, ◌≡◌, inl, inr, either_branch}
use brass_runtime.Fiber.State.{StepDecision, Fiber, Host}
use brass_runtime.Fiber.Machine.{
  Round, go, stop, Bounce, again, left, exec, after_exec, after_bounce, after_trampoline, loop,
  trampoline_round, is_flat_map,
}
use brass_runtime.Fiber.Ends.{IsOver, Runs, RoundFine, BounceFine, Switched}

module _ {H V E : Type 0} (host : Host H V E) where
  abbrev Over : StepDecision × Fiber H V E → Type 0
  Over r = IsOver host r.0

  switched_on :
      (f : Fiber H V E) (b : ℕ)
      → Over (loop host b false f)
      → (b : ℕ) × Over (after_exec (loop host (suc b) false) (go f))
  unfolding loop
  switched_on f zero o = absurd o
  switched_on f (suc b) o = (b, either_branch Over (is_some f.result) (λ _. tt) (λ _. o))

  switched_from :
      (r : Round H V E) → RoundFine host r → (b : ℕ) × Over (after_exec (loop host (suc b) false) r)
  switched_from (go f) (inl e) =
      (0, either_branch Over (is_some f.result) (λ _. tt) (λ n. absurd (cc)))
  switched_from (go f) (inr r) = switched_on f r.outer.0 r.outer.1
  switched_from (stop d f) o = (0, o)

  inner_from :
      (r : Bounce H V E)
      → BounceFine host r
      → (b : ℕ) × Over
          (after_bounce (loop host b true) (after_trampoline host b (loop host b false)) r)
  unfolding after_trampoline
  inner_from (again f) r = r.inner
  inner_from (Bounce.ended d f) o = (0, o)
  inner_from (left f) (inl e) =
      (0, either_branch Over (is_some f.result) (λ _. tt) (λ n. absurd (cc)))
  inner_from (left f) (inr s) =
      (suc s.0, either_branch Over (is_some f.result) (λ _. tt) (λ _. s.1))

  -- An effect that is no FlatMap, from the round of the switch.
  pub Runs-exec :
      (f : Fiber H V E)
      → is_flat_map f.current ≡ false
      → RoundFine host (exec host f.current f)
      → (Switched host f → BounceFine host (trampoline_round f))
      → Runs host f
  unfolding loop
  Runs-exec f n r t =
      let s = switched_from (exec host f.current f) r in
      let i = inner_from (trampoline_round f) (t s) in
      record {
        outer = (
          suc (suc s.0),
          either_branch Over (is_flat_map f.current) (λ y. absurd (cc)) (λ _. s.1),
        );
        inner = (suc i.0, i.1);
        switched = s;
      }

  -- A FlatMap, from the round of the trampoline.
  pub Runs-bounce :
      (f : Fiber H V E)
      → is_flat_map f.current ≡ true
      → RoundFine host (exec host f.current f)
      → BounceFine host (trampoline_round f)
      → Runs host f
  unfolding loop
  Runs-bounce f n r t =
      let i = inner_from (trampoline_round f) t in
      record {
        outer = (
          suc (suc i.0),
          either_branch Over (is_flat_map f.current) (λ _. i.1) (λ y. absurd (cc)),
        );
        inner = (suc i.0, i.1);
        switched = switched_from (exec host f.current f) r;
      }
