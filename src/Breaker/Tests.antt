-- ===== src/Breaker/Tests.antt =====
-- Witnesses for the theorems on circuit breakers.
use brass_runtime.Base.{ℕ, ◌+◌, ◌*◌, ◌≤◌, ◌<◌, true, [], ◌∷◌, ◌≡◌, ◌⊎◌, refl, arith}
use brass_runtime.Breaker.{
  closed, opened, Config, on_success, on_failure, protect, reset, make_circuit_breaker,
}
use brass_runtime.Breaker.Valid.{IsValid, operations-IsValid}
use brass_runtime.Breaker.Opens.{fail_all, failures_open}

abbrev ticks : ℕ → ℕ
ticks n = n * 10

abbrev two_strikes : Config ℕ
two_strikes = record {
  failure_threshold = 2;
  reset_timeout_ms = 100;
  success_threshold = 1;
  is_failure = λ _. true;
}

new-IsValid : IsValid ticks two_strikes make_circuit_breaker
new-IsValid = record {
  below = (omega arith, refl);
  rejections = omega arith;
  trips = omega arith;
  closes = omega arith;
}

operations-IsValid_example :
    IsValid ticks two_strikes (protect ticks two_strikes make_circuit_breaker).1
    × IsValid ticks two_strikes (on_success ticks two_strikes make_circuit_breaker)
    × IsValid ticks two_strikes (on_failure ticks two_strikes 7 make_circuit_breaker)
    × IsValid ticks two_strikes (reset ticks two_strikes make_circuit_breaker)
operations-IsValid_example = operations-IsValid ticks two_strikes 7 make_circuit_breaker new-IsValid

failures_open_example :
    ((2 ≤ 0 + 3)
      × ((fail_all ticks two_strikes (7 ∷ 8 ∷ 9 ∷ []) make_circuit_breaker).current_state ≡ opened))
    ⊎ ((0 + 3 < 2)
        × ((fail_all ticks two_strikes (7 ∷ 8 ∷ 9 ∷ []) make_circuit_breaker).current_state
            ≡ closed))
failures_open_example =
    failures_open ticks two_strikes (7 ∷ 8 ∷ 9 ∷ []) make_circuit_breaker refl (omega arith)
      (refl, (refl, (refl, tt)))
