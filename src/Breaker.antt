-- ===== src/Breaker.antt =====
-- core/runtime/circuitBreaker.ts (`makeCircuitBreaker`).
-- Times and counters are natural numbers; `now` gives what the n-th call of `Date.now` returns.
-- `protect` tells whether the effect is let through; the two handlers that it then puts around the
-- effect are `on_failure` and `on_success`, of which the fiber calls one at most. `onStateChange`
-- is the list of its calls.
pub mod Valid
pub mod Opens
mod Tests
use brass_runtime.Base.{
  ℕ, suc, ◌+◌, ◌-◌, Bool, true, false, List, [], ◌∷◌, ◌++◌, Option, none, some, ltb, leb,
  if◌then◌else◌,
}

pub data State : Type 0 where
  closed opened half_open : State

-- The configuration with its defaults filled in.
pub record Config (E : Type 0) : Type 0 where
  pub failure_threshold : ℕ
  pub reset_timeout_ms : ℕ
  pub success_threshold : ℕ
  pub is_failure : E → Bool

abbrev pub default_config : {E : Type 0} → Config E
default_config = record {
  failure_threshold = 5;
  reset_timeout_ms = 30000;
  success_threshold = 1;
  is_failure = λ _. true;
}

pub record Breaker : Type 0 where
  pub current_state : State
  pub consecutive_failures : ℕ
  pub consecutive_successes : ℕ
  pub opened_at : ℕ
  pub total_requests : ℕ
  pub total_failures : ℕ
  pub total_successes : ℕ
  pub total_rejected : ℕ
  pub last_failure_time : Option ℕ
  pub last_success_time : Option ℕ
  pub readings : ℕ
  pub changes : List (State × State)

-- What `protect` returns: the failure `CircuitBreakerOpen`, or the effect under its two handlers.
pub data Protected : Type 0 where
  circuit_breaker_open : ℕ → ℕ → Protected
  guarded : Protected

abbrev pub make_circuit_breaker : Breaker
make_circuit_breaker = record {
  current_state = closed;
  consecutive_failures = 0;
  consecutive_successes = 0;
  opened_at = 0;
  total_requests = 0;
  total_failures = 0;
  total_successes = 0;
  total_rejected = 0;
  last_failure_time = none;
  last_success_time = none;
  readings = 0;
  changes = [];
}

abbrev same_state : State → State → Bool
same_state closed closed = true
same_state opened opened = true
same_state half_open half_open = true
same_state from to = false

unfoldable pub transition : State → Breaker → Breaker
transition to b =
    if same_state b.current_state to
    then b
    else record b { current_state = to; changes = b.changes ++ ((b.current_state, to) ∷ []) }

module _ {E : Type 0} (now : ℕ → ℕ) (config : Config E) where
  abbrev pub success_in : State → Breaker → Breaker
  success_in half_open b =
      let b1 = record b { consecutive_successes = b.consecutive_successes + 1 } in
      if leb config.success_threshold b1.consecutive_successes
      then transition closed (record b1 { consecutive_successes = 0 })
      else b1
  success_in closed b = b
  success_in opened b = b

  unfoldable pub on_success : Breaker → Breaker
  unfolding transition
  on_success b = success_in b.current_state (record b {
    total_successes = b.total_successes + 1;
    last_success_time = some (now b.readings);
    readings = suc b.readings;
    consecutive_failures = 0;
  })

  abbrev pub open_now : Breaker → Breaker
  open_now b =
      transition opened (record b { opened_at = now b.readings; readings = suc b.readings })

  abbrev pub failure_in : State → Breaker → Breaker
  failure_in half_open b = open_now b
  failure_in closed b =
      if leb config.failure_threshold b.consecutive_failures then open_now b else b
  failure_in opened b = b

  unfoldable pub on_failure : E → Breaker → Breaker
  unfolding on_success transition
  on_failure error b =
      if config.is_failure error
      then failure_in b.current_state (record b {
        total_failures = b.total_failures + 1;
        last_failure_time = some (now b.readings);
        readings = suc b.readings;
        consecutive_successes = 0;
        consecutive_failures = b.consecutive_failures + 1;
      })
      else on_success b

  -- `elapsed >= resetTimeoutMs`, of a difference that may be negative.
  abbrev pub is_over : Breaker → Bool
  is_over b = leb (b.opened_at + config.reset_timeout_ms) (now b.readings)

  abbrev pub allow_in : State → Breaker → Bool × Breaker
  allow_in closed b = (true, b)
  allow_in half_open b = (true, b)
  allow_in opened b =
      let b1 = record b { readings = suc b.readings } in
      if is_over b then (true, transition half_open b1) else (false, b1)

  unfoldable pub should_allow : Breaker → Bool × Breaker
  unfolding transition
  should_allow b = allow_in b.current_state b

  unfoldable pub protect : Breaker → Protected × Breaker
  unfolding should_allow
  protect b =
      let (allowed, b1) = should_allow (record b { total_requests = b.total_requests + 1 }) in
      if allowed then (guarded, b1) else (
        circuit_breaker_open b1.opened_at b1.consecutive_failures,
        record b1 { total_rejected = b1.total_rejected + 1 },
      )

  unfoldable pub reset : Breaker → Breaker
  unfolding transition
  reset b = transition closed (record b { consecutive_failures = 0; consecutive_successes = 0 })
