-- ===== src/Schedule/Delays.antt =====
-- How long a schedule waits.
use brass_runtime.Base.{
  ℕ, zero, suc, ◌+◌, ◌*◌, ◌≤◌, ◌<◌, true, List, [], ◌∷◌, none, length, ◌≡◌, refl, arith, map, ap,
  ◌∙◌,
}
use mathlib.Core.Path.{ap₂}
use brass_runtime.Schedule.{Decision, Context, Schedule, fibonacci}
use brass_runtime.Schedule.Combinators.{max_elapsed}
use brass_runtime.Schedule.Driver.{
  ScheduleDriver, make_schedule_driver, next, run_from, run_schedule,
}

module _ {I O : Type 0} (schedule : Schedule I O) where
  -- A wait that `max_elapsed` asks for ends within the budget, counted from when it started, and it
  -- continues only before the budget is used up.
  pub max_elapsed-within :
      (max_ms started : ℕ) (s : schedule.State) (input : I) (c : Context)
      → started ≤ c.now
      → ((max_elapsed schedule max_ms).step (s, started) input c).0.continues ≡ true
      → (c.now + ((max_elapsed schedule max_ms).step (s, started) input c).0.delay_ms
          ≤ started + max_ms)
        × (c.now < started + max_ms)
  max_elapsed-within max_ms started s input c h e = ground arith

-- The Fibonacci numbers, from the definition.
abbrev pub fib : ℕ → ℕ
fib zero = 0
fib (suc zero) = 1
fib (suc (suc n)) = fib n + fib (suc n)

-- The delays of the next so many steps.
abbrev pub fib_delays : ℕ → ℕ → ℕ → List ℕ
fib_delays base first zero = []
fib_delays base first (suc n) = base * fib (suc first) ∷ fib_delays base (suc first) n

module _ {I : Type 0} (base : ℕ) (clock : ℕ → ℕ) where
  fibonacci-delays_from :
      (inputs : List I) (n : ℕ) (d : ScheduleDriver {I = I} (fibonacci base none))
      → d.state ≡ (fib n, fib (suc n), n)
      → map (λ (r : Decision × ℕ). r.0.delay_ms) (run_from (fibonacci base none) clock inputs d)
        ≡ fib_delays base n (length inputs)
  unfolding run_from next
  fibonacci-delays_from [] n d e = refl
  fibonacci-delays_from (input ∷ inputs) n d e =
      let more : n + 1 ≡ suc n = omega arith in
      ap₂ ◌∷◌ (ap (λ (t : ℕ × ℕ × ℕ). base * t.1) e) (
        fibonacci-delays_from inputs (suc n)
          (next (fibonacci base none) (clock d.attempt) input d).1
          (ap (λ (t : ℕ × ℕ × ℕ). (t.1, t.0 + t.1, t.2 + 1)) e
            ∙ ap (λ (t : ℕ). (fib (suc n), fib n + fib (suc n), t)) more))

  -- The delays of `fibonacci`, with no cap, are the multiples of `base` by the Fibonacci numbers, in
  -- their order.
  pub fibonacci-delays :
      (now : ℕ) (inputs : List I)
      → map
          (λ (r : Decision × ℕ). r.0.delay_ms)
          (run_schedule (fibonacci base none) clock now inputs)
        ≡ fib_delays base 0 (length inputs)
  unfolding run_schedule
  fibonacci-delays now inputs =
      fibonacci-delays_from inputs 0 (make_schedule_driver (fibonacci base none) now) refl
