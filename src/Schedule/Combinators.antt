-- ===== src/Schedule/Combinators.antt =====
-- The combinators of schedules.
use brass_runtime.Base.{
  ℕ, ◌+◌, ◌-◌, min, max, Bool, true, false, not, ◌&&◌, ◌||◌, Option, none, some, ltb, leb, ◌⊎◌, inl,
  inr, if◌then◌else◌,
}
use brass_runtime.Schedule.{Decision, Context, Schedule, decide}

module _ {I O : Type 0} where
  -- The output is `undefined`, here none, once the limit is reached.
  abbrev pub take : Schedule I O → ℕ → Schedule I (Option O)
  take schedule limit = record {
    State = schedule.State × ℕ;
    initial = λ context. (schedule.initial context, 0);
    step = λ (inner, count) input context.
        let (decision, next_inner, output) = schedule.step inner input context in
        if leb limit count then (decide false 0, (inner, count), none) else (
          decide (decision.continues && ltb (count + 1) limit) decision.delay_ms,
          (next_inner, count + 1),
          some output,
        );
  }

  abbrev pub map : {O2 : Type 0} → Schedule I O → (O → O2) → Schedule I O2
  map schedule f = record {
    State = schedule.State;
    initial = schedule.initial;
    step = λ state input context.
        let (decision, next_state, output) = schedule.step state input context in
        (decision, next_state, f output);
  }

  abbrev pub contramap : {I0 : Type 0} → Schedule I O → (I0 → I) → Schedule I0 O
  contramap schedule f = record {
    State = schedule.State;
    initial = schedule.initial;
    step = λ state input context. schedule.step state (f input) context;
  }

  abbrev pub windowed : Schedule I O → ℕ → Schedule I O
  windowed schedule window = record {
    State = schedule.State × ℕ;
    initial = λ context. (schedule.initial context, context.now);
    step = λ (old, old_start) input context.
        let should_reset = ltb 0 window && ltb (old_start + window) context.now in
        let inner = if should_reset then schedule.initial context else old in
        let window_started_at = if should_reset then context.now else old_start in
        let (decision, next_inner, output) = schedule.step inner input context in
        (decision, (next_inner, window_started_at), output);
  }

  abbrev pub max_delay : Schedule I O → ℕ → Schedule I O
  max_delay schedule cap = record {
    State = schedule.State;
    initial = schedule.initial;
    step = λ state input context.
        let (decision, next_state, output) = schedule.step state input context in
        (record decision { delay_ms = min decision.delay_ms cap }, next_state, output);
  }

  abbrev pub max_elapsed : Schedule I O → ℕ → Schedule I (Option O)
  max_elapsed schedule max_ms = record {
    State = schedule.State × ℕ;
    initial = λ context. (schedule.initial context, context.now);
    step = λ (inner, started_at) input context.
        let elapsed_ms = context.now - started_at in
        let remaining = max_ms - elapsed_ms in
        let (decision, next_inner, output) = schedule.step inner input context in
        if leb max_ms elapsed_ms then (decide false 0, (inner, started_at), none) else (
          decide (decision.continues && ltb 0 remaining) (min decision.delay_ms remaining),
          (next_inner, started_at),
          some output,
        );
  }

  abbrev pub while_output : Schedule I O → (O → Bool) → Schedule I O
  while_output schedule pred = record {
    State = schedule.State;
    initial = schedule.initial;
    step = λ state input context.
        let (decision, next_state, output) = schedule.step state input context in
        (record decision { continues = decision.continues && pred output }, next_state, output);
  }

  abbrev pub until_output : Schedule I O → (O → Bool) → Schedule I O
  until_output schedule pred = while_output schedule λ output. not (pred output)

module _ {I O1 O2 : Type 0} where
  -- The state is in the phase `first` or in the phase `second`.
  abbrev pub and_then_step :
      (first : Schedule I O1) (second : Schedule I O2)
      → first.State ⊎ second.State
      → I
      → Context
      → Decision × (first.State ⊎ second.State) × (O1 ⊎ O2)
  and_then_step first second (inl inner) input context =
      let (decision, next_inner, output) = first.step inner input context in
      if decision.continues
      then (decision, inl next_inner, inl output)
      else (decide true decision.delay_ms, inr (second.initial context), inl output)
  and_then_step first second (inr inner) input context =
      let (decision, next_inner, output) = second.step inner input context in
      (decision, inr next_inner, inr output)

  abbrev pub and_then : Schedule I O1 → Schedule I O2 → Schedule I (O1 ⊎ O2)
  and_then first second = record {
    State = first.State ⊎ second.State;
    initial = λ context. inl (first.initial context);
    step = and_then_step first second;
  }

  abbrev pub intersect : Schedule I O1 → Schedule I O2 → Schedule I (O1 × O2)
  intersect left right = record {
    State = left.State × right.State;
    initial = λ context. (left.initial context, right.initial context);
    step = λ (left_state, right_state) input context.
        let (ld, ls, lo) = left.step left_state input context in
        let (rd, rs, ro) = right.step right_state input context in
        (decide (ld.continues && rd.continues) (max ld.delay_ms rd.delay_ms), (ls, rs), (lo, ro));
  }

  abbrev pub union : Schedule I O1 → Schedule I O2 → Schedule I (O1 × O2)
  union left right = record {
    State = left.State × right.State;
    initial = λ context. (left.initial context, right.initial context);
    step = λ (left_state, right_state) input context.
        let (ld, ls, lo) = left.step left_state input context in
        let (rd, rs, ro) = right.step right_state input context in
        (decide (ld.continues || rd.continues) (min ld.delay_ms rd.delay_ms), (ls, rs), (lo, ro));
  }
