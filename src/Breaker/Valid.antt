-- ===== src/Breaker/Valid.antt =====
-- The invariant of a circuit breaker, and that every operation keeps it.
use brass_runtime.Base.{ℕ, ◌≤◌, ◌<◌, ◌≡◌, arith}
use brass_runtime.Breaker.{
  State, closed, opened, half_open, Config, Breaker, transition, on_success, on_failure,
  should_allow, protect, reset,
}

module _ {E : Type 0} (now : ℕ → ℕ) (config : Config E) where
  -- What the counters are in a state: a closed breaker has had fewer failures in a row than open it,
  -- a half-open one fewer successes than close it, and successes in a row count only there.
  abbrev pub Below : State → ℕ → ℕ → Type 0
  Below closed failures successes = (failures < config.failure_threshold) × (successes ≡ 0)
  Below opened failures successes = successes ≡ 0
  Below half_open failures successes = successes < config.success_threshold

  -- Also, no more requests are rejected than there were.
  pub record IsValid (b : Breaker) : Type 0 where
    pub below : Below b.current_state b.consecutive_failures b.consecutive_successes
    pub rejections : b.total_rejected ≤ b.total_requests
    pub trips : 0 < config.failure_threshold
    pub closes : 0 < config.success_threshold

  -- The handler of a success keeps a circuit breaker well-formed.
  pub on_success-IsValid : (b : Breaker) → IsValid b → IsValid (on_success now config b)
  unfolding on_success transition
  on_success-IsValid b v = ground (arith, v.below)

  -- The handler of a failure keeps a circuit breaker well-formed.
  pub on_failure-IsValid :
      (error : E) (b : Breaker) → IsValid b → IsValid (on_failure now config error b)
  unfolding on_failure on_success transition
  on_failure-IsValid error b v = ground (arith, v.below)

  -- `protect` keeps a circuit breaker well-formed.
  pub protect-IsValid : (b : Breaker) → IsValid b → IsValid (protect now config b).1
  unfolding protect should_allow transition
  protect-IsValid b v = ground (arith, v.below)

  -- `reset` keeps a circuit breaker well-formed.
  pub reset-IsValid : (b : Breaker) → IsValid b → IsValid (reset now config b)
  unfolding reset transition
  reset-IsValid b v = ground (arith, v.below)

  -- Each operation of a circuit breaker, `protect`, the two handlers and `reset`, keeps a closed
  -- breaker below the threshold of failures, a half-open one below that of successes, no successes
  -- counted elsewhere, and no more rejections than requests.
  pub operations-IsValid :
      (error : E) (b : Breaker)
      → IsValid b
      → IsValid (protect now config b).1
        × IsValid (on_success now config b)
        × IsValid (on_failure now config error b)
        × IsValid (reset now config b)
  operations-IsValid error b v =
      (protect-IsValid b v, on_success-IsValid b v, on_failure-IsValid error b v, reset-IsValid b v)
