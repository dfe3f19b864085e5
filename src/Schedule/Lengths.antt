-- ===== src/Schedule/Lengths.antt =====
-- How many decisions a schedule makes.
use brass_runtime.Base.{
  ℕ, suc, ◌+◌, ◌-◌, ◌≤◌, min, max, Bool, true, false, List, [], ◌∷◌, some, length, ◌≡◌, refl, arith,
  if◌then◌else◌, ap, ◌∙◌,
}
use brass_runtime.Schedule.{Decision, Schedule, recurs}
use brass_runtime.Schedule.Combinators.{intersect, union, take}
use brass_runtime.Schedule.Driver.{
  ScheduleDriver, make_schedule_driver, make_context, next, run_from, run_schedule,
}

module _ {I O : Type 0} (schedule : Schedule I O) (clock : ℕ → ℕ) (started : ℕ) where
  -- The decisions from a state and an attempt on.
  abbrev pub decisions : List I → schedule.State → ℕ → ℕ
  decisions [] s n = 0
  decisions (input ∷ inputs) s n =
      let (decision, s1, _) =
        schedule.step s input (record { now = clock n; started_at_ms = started; attempt = n }) in
      let later = decisions inputs s1 (n + 1) in suc (if decision.continues then later else 0)

  length-cut :
      (b : Bool) (x : Decision × O) (xs : List (Decision × O))
      → length (x ∷ (if b then xs else [])) ≡ suc (if b then length xs else 0)
  length-cut true x xs = refl
  length-cut false x xs = refl

  length-run_from :
      (inputs : List I) (d : ScheduleDriver schedule)
      → d.started_at_ms ≡ started
      → length (run_from schedule clock inputs d) ≡ decisions inputs d.state d.attempt
  unfolding run_from next
  length-run_from [] d e = refl
  length-run_from (input ∷ inputs) d e =
      let r =
        schedule.step d.state input
          (record { now = clock d.attempt; started_at_ms = started; attempt = d.attempt }) in
      simp e (
        length-cut r.0.continues (r.0, r.2) _
        ∙ ap (λ t. suc (if r.0.continues then t else 0))
            (length-run_from inputs
              (record {
                state = r.1;
                started_at_ms = started;
                last = some (r.0, r.2);
                attempt = d.attempt + 1;
              })
              refl))

module _ {I O : Type 0} (schedule : Schedule I O) where
  length-run_schedule :
      (clock : ℕ → ℕ) (now : ℕ) (inputs : List I)
      → length (run_schedule schedule clock now inputs)
        ≡ decisions schedule clock now inputs (make_schedule_driver schedule now).state 0
  unfolding run_schedule
  length-run_schedule clock now inputs =
      length-run_from schedule clock now inputs (make_schedule_driver schedule now) refl

module _ {I L R : Type 0} (l : Schedule I L) (r : Schedule I R) (clock : ℕ → ℕ) (now : ℕ) where
  intersect-decisions :
      (inputs : List I) (s : l.State) (t : r.State) (n : ℕ)
      → decisions (intersect l r) clock now inputs (s, t) n
        ≡ min (decisions l clock now inputs s n) (decisions r clock now inputs t n)
  intersect-decisions [] s t n = omega arith
  intersect-decisions (input ∷ inputs) s t n =
      let c = make_context l (clock n) now n in
      ground (arith, intersect-decisions inputs (l.step s input c).1 (r.step t input c).1 (n + 1))

  union-decisions :
      (inputs : List I) (s : l.State) (t : r.State) (n : ℕ)
      → max (decisions l clock now inputs s n) (decisions r clock now inputs t n)
        ≤ decisions (union l r) clock now inputs (s, t) n
  union-decisions [] s t n = omega arith
  union-decisions (input ∷ inputs) s t n =
      let c = make_context l (clock n) now n in
      ground (arith, union-decisions inputs (l.step s input c).1 (r.step t input c).1 (n + 1))

  -- `intersect` makes as many decisions as the schedule that stops first.
  pub intersect-length :
      (inputs : List I)
      → length (run_schedule (intersect l r) clock now inputs)
        ≡ min (length (run_schedule l clock now inputs)) (length (run_schedule r clock now inputs))
  intersect-length inputs =
      let c = make_context l now now 0 in
      omega (
        arith,
        length-run_schedule (intersect l r) clock now inputs,
        length-run_schedule l clock now inputs,
        length-run_schedule r clock now inputs,
        intersect-decisions inputs (l.initial c) (r.initial c) 0,
      )

  -- `union` makes at least as many decisions as the schedule that stops last.
  pub union-length :
      (inputs : List I)
      → max (length (run_schedule l clock now inputs)) (length (run_schedule r clock now inputs))
        ≤ length (run_schedule (union l r) clock now inputs)
  union-length inputs =
      let c = make_context l now now 0 in
      omega (
        arith,
        length-run_schedule (union l r) clock now inputs,
        length-run_schedule l clock now inputs,
        length-run_schedule r clock now inputs,
        union-decisions inputs (l.initial c) (r.initial c) 0,
      )

module _ {I O : Type 0} (schedule : Schedule I O) (clock : ℕ → ℕ) (now : ℕ) where
  take-decisions :
      (limit : ℕ) (inputs : List I) (s : schedule.State) (count n : ℕ)
      → decisions (take schedule limit) clock now inputs (s, count) n
        ≡ min (decisions schedule clock now inputs s n) (max 1 (limit - count))
  take-decisions limit [] s count n = omega arith
  take-decisions limit (input ∷ inputs) s count n =
      let c = make_context schedule (clock n) now n in
      ground (arith, take-decisions limit inputs (schedule.step s input c).1 (count + 1) (n + 1))

  -- `take` with a limit makes as many decisions as the schedule does, up to that limit, and one
  -- decision if the limit is 0.
  pub take-length :
      (limit : ℕ) (inputs : List I)
      → length (run_schedule (take schedule limit) clock now inputs)
        ≡ min (length (run_schedule schedule clock now inputs)) (max 1 limit)
  take-length limit inputs =
      let c = make_context schedule now now 0 in
      omega (
        arith,
        length-run_schedule (take schedule limit) clock now inputs,
        length-run_schedule schedule clock now inputs,
        take-decisions limit inputs (schedule.initial c) 0 0,
      )

module _ {I : Type 0} (clock : ℕ → ℕ) (now : ℕ) where
  recurs-decisions :
      (limit : ℕ) (inputs : List I) (count n : ℕ)
      → decisions (recurs limit) clock now inputs count n
        ≡ min (length inputs) (max 1 (limit - count))
  recurs-decisions limit [] count n = omega arith
  recurs-decisions limit (input ∷ inputs) count n =
      ground (arith, recurs-decisions limit inputs (count + 1) (n + 1))

  -- `recurs(n)` makes n decisions, and one if n is 0, unless the inputs end before.
  pub recurs-length :
      (limit : ℕ) (inputs : List I)
      → length (run_schedule (recurs limit) clock now inputs) ≡ min (length inputs) (max 1 limit)
  recurs-length limit inputs = omega (
    arith,
    length-run_schedule (recurs limit) clock now inputs,
    recurs-decisions limit inputs 0 0,
  )
