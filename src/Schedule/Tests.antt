-- ===== src/Schedule/Tests.antt =====
-- Witnesses for the theorems on schedules.
use brass_runtime.Base.{ℕ, ◌*◌, min, max, List, [], ◌∷◌, none, length, map, ◌≡◌}
use brass_runtime.Schedule.{Decision, Context, recurs, fibonacci}
use brass_runtime.Schedule.Driver.{run_schedule}
use brass_runtime.Schedule.Lengths.{recurs-length}
use brass_runtime.Schedule.Delays.{fib_delays, fibonacci-delays}

abbrev ticks : ℕ → ℕ
ticks n = n * 10

abbrev four : List ℕ
four = 1 ∷ 2 ∷ 3 ∷ 4 ∷ []

recurs-length_example : length (run_schedule (recurs 3) ticks 0 four) ≡ min 4 (max 1 3)
recurs-length_example = recurs-length ticks 0 3 four

-- 30 after the start, of a budget of 50.
abbrev later : Context
later = record { now = 30; started_at_ms = 0; attempt = 2 }

fibonacci-delays_example :
    map (λ (r : Decision × ℕ). r.0.delay_ms) (run_schedule (fibonacci 5 none) ticks 0 four)
    ≡ fib_delays 5 0 4
fibonacci-delays_example = fibonacci-delays 5 ticks 0 four
