-- ===== src/Schedule/Driver.antt =====
-- `makeScheduleDriver` and `runSchedule`.
-- The clock of a driver is a function of the attempt, `clock n` when the n-th input comes.
use brass_runtime.Base.{ℕ, ◌+◌, List, [], ◌∷◌, Option, none, some, if◌then◌else◌}
use brass_runtime.Schedule.{Decision, Context, Schedule}

module _ {I O : Type 0} (schedule : Schedule I O) where
  pub record ScheduleDriver : Type 0 where
    pub state : schedule.State
    pub started_at_ms : ℕ
    pub attempt : ℕ
    pub last : Option (Decision × O)

  abbrev pub make_context : ℕ → ℕ → ℕ → Context
  make_context now started_at attempt = record {
    now = now;
    started_at_ms = started_at;
    attempt = attempt;
  }

  abbrev pub make_schedule_driver : ℕ → ScheduleDriver
  make_schedule_driver now = record {
    state = schedule.initial (make_context now now 0);
    started_at_ms = now;
    attempt = 0;
    last = none;
  }

  unfoldable pub next : ℕ → I → ScheduleDriver → (Decision × O) × ScheduleDriver
  next now input d =
      let (decision, next_state, output) =
        schedule.step d.state input (make_context now d.started_at_ms d.attempt) in
      (
        (decision, output),
        record d { state = next_state; last = some (decision, output); attempt = d.attempt + 1 },
      )

  unfoldable pub reset : ℕ → ScheduleDriver → ScheduleDriver
  reset now d = make_schedule_driver now

  -- The decisions for the inputs, up to the first that does not continue.
  unfoldable pub run_from : (ℕ → ℕ) → List I → ScheduleDriver → List (Decision × O)
  unfolding next
  run_from clock [] d = []
  run_from clock (input ∷ inputs) d =
      let (result, d1) = next (clock d.attempt) input d in
      let later = run_from clock inputs d1 in result ∷ (if result.0.continues then later else [])

  unfoldable pub run_schedule : (ℕ → ℕ) → ℕ → List I → List (Decision × O)
  unfolding run_from
  run_schedule clock now inputs = run_from clock inputs (make_schedule_driver now)
