-- ===== src/Breaker/Opens.antt =====
-- When a circuit breaker opens, and what it lets through.
use brass_runtime.Base.{
  ℕ, ◌+◌, ◌≤◌, ◌<◌, List, [], ◌∷◌, length, ◌≡◌, ◌≢◌, arith, inl, inr, ◌⊎◌, true,
}
use brass_runtime.Breaker.{
  closed, opened, Config, Breaker, guarded, transition, on_failure, should_allow, protect,
}

module _ {E : Type 0} (now : ℕ → ℕ) (config : Config E) where
  -- Errors that all count as failures.
  abbrev pub AllCount : List E → Type 0
  AllCount [] = Unit
  AllCount (e ∷ es) = (config.is_failure e ≡ true) × AllCount es

  unfoldable pub fail_all : List E → Breaker → Breaker
  fail_all [] b = b
  fail_all (e ∷ es) b = fail_all es (on_failure now config e b)

  stays_open :
      (e : E) (b : Breaker)
      → b.current_state ≡ opened
      → config.is_failure e ≡ true
      → (on_failure now config e b).current_state ≡ opened
  unfolding on_failure
  stays_open e b s c = ground arith

  all_stay_open :
      (es : List E) (b : Breaker)
      → AllCount es
      → b.current_state ≡ opened
      → (fail_all es b).current_state ≡ opened
  unfolding fail_all
  all_stay_open [] b c s = s
  all_stay_open (e ∷ es) b c s =
      all_stay_open es (on_failure now config e b) c.1 (stays_open e b s c.0)

  one_failure :
      (e : E) (b : Breaker)
      → b.current_state ≡ closed
      → config.is_failure e ≡ true
      → ((on_failure now config e b).current_state ≡ opened)
          × (config.failure_threshold ≤ b.consecutive_failures + 1)
        ⊎ ((on_failure now config e b).current_state ≡ closed)
          × ((on_failure now config e b).consecutive_failures ≡ b.consecutive_failures + 1)
          × (b.consecutive_failures + 1 < config.failure_threshold)
  unfolding on_failure transition
  one_failure e b s c = ground arith

  -- Failures in a row open a closed circuit breaker exactly if they make up, with those in a row
  -- before, the threshold; else it is closed still.
  pub failures_open :
      (es : List E) (b : Breaker)
      → b.current_state ≡ closed
      → b.consecutive_failures < config.failure_threshold
      → AllCount es
      → ((config.failure_threshold ≤ b.consecutive_failures + length es)
          × ((fail_all es b).current_state ≡ opened))
        ⊎ ((b.consecutive_failures + length es < config.failure_threshold)
            × ((fail_all es b).current_state ≡ closed))
  unfolding fail_all
  failures_open [] b s f c = inr (omega arith, s)
  failures_open (e ∷ es) b s f c = elim (one_failure e b s c.0) [
    | inl (o, t) ↦ inl (omega arith, all_stay_open es (on_failure now config e b) c.1 o)
    | inr (o, n, t) ↦ elim (failures_open es (on_failure now config e b) o (omega (arith, n)) c.1) [
      | inl (h, r) ↦ inl (omega (arith, n), r)
      | inr (h, r) ↦ inr (omega (arith, n), r)
    ]
  ]

  -- `protect` turns a request away exactly if the circuit breaker is open and its timeout is not
  -- over, and then leaves it open.
  pub protect-rejects :
      (b : Breaker)
      → let r = protect now config b in
        ((r.0 ≢ guarded)
          × (b.current_state ≡ opened)
          × (now b.readings < b.opened_at + config.reset_timeout_ms)
          × (r.1.current_state ≡ opened)
          × (r.1.total_rejected ≡ b.total_rejected + 1))
        ⊎ ((r.0 ≡ guarded)
            × ((b.current_state ≢ opened)
                ⊎ (b.opened_at + config.reset_timeout_ms ≤ now b.readings))
            × (r.1.current_state ≢ opened)
            × (r.1.total_rejected ≡ b.total_rejected))
  unfolding protect should_allow transition
  protect-rejects b = ground arith
