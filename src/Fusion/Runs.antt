-- ===== src/Fusion/Runs.antt =====
-- The composed step, against the operators that run one after the other.
pub mod Element
pub mod Whole
pub mod Arrays
use brass_runtime.Base.{
  ℕ, zero, suc, ◌+◌, ◌-◌, ◌<◌, List, [], ◌∷◌, get_or-set_ne, ◌≡◌, refl, ap, ◌∙◌, arith,
}
use brass_runtime.Streams.Runs.{Run, over, fails, gives}
use brass_runtime.Streams.Pipes.Agrees.{map_run, filter_run, drop_run}
use brass_runtime.Fusion.{
  PurePipelineMetadata, map_meta, filter_meta, take_meta, drop_meta, FuseResult, emit, skip, halt,
  FuseState, Step, counter, count_up, step_of_emitted, compose_steps, build_step_from_metadata,
  counted, compose_rest,
}

module _ {E A : Type 0} where
  -- A take that looks at the element behind the last one: it lets an error in that place through.
  abbrev pub fused_take : ℕ → Run E A → Run E A
  fused_take n over = over
  fused_take n (fails e) = fails e
  fused_take zero (gives a rest) = over
  fused_take (suc n) (gives a rest) = gives a (fused_take n rest)

  -- What a step does to a run.
  abbrev pub fused_meta : PurePipelineMetadata A → Run E A → Run E A
  fused_meta (map_meta fn) run = map_run fn run
  fused_meta (filter_meta pred) run = filter_run pred run
  fused_meta (take_meta n) run = fused_take n run
  fused_meta (drop_meta n) run = drop_run n run

  abbrev pub fused_metas : List (PurePipelineMetadata A) → Run E A → Run E A
  fused_metas [] run = run
  fused_metas (meta ∷ metas) run = fused_metas metas (fused_meta meta run)

  pub fused_metas-over : (ms : List (PurePipelineMetadata A)) → fused_metas ms over ≡ over
  fused_metas-over [] = refl
  fused_metas-over (map_meta f ∷ ms) = fused_metas-over ms
  fused_metas-over (filter_meta p ∷ ms) = fused_metas-over ms
  fused_metas-over (take_meta n ∷ ms) = fused_metas-over ms
  fused_metas-over (drop_meta zero ∷ ms) = fused_metas-over ms
  fused_metas-over (drop_meta (suc n) ∷ ms) = fused_metas-over ms

module _ {A : Type 0} where
  -- The composition from the right.
  abbrev pub steps_from : List (PurePipelineMetadata A) → ℕ → Step A
  steps_from [] i a state = (emit a, state)
  steps_from (meta ∷ metas) i a state =
      step_of_emitted (steps_from metas (counted meta i)) (build_step_from_metadata meta i a state)

  emitted_twice :
      (s t : Step A) (r : FuseResult A × FuseState)
      → step_of_emitted t (step_of_emitted s r) ≡ step_of_emitted (compose_steps s t) r
  emitted_twice s t (emit b, state) = refl
  emitted_twice s t (skip, state) = refl
  emitted_twice s t (halt, state) = refl

  emitted_id : (i : ℕ) (r : FuseResult A × FuseState) → r ≡ step_of_emitted (steps_from [] i) r
  emitted_id i (emit b, state) = refl
  emitted_id i (skip, state) = refl
  emitted_id i (halt, state) = refl

  pub compose_rest-steps :
      (ms : List (PurePipelineMetadata A)) (i : ℕ) (s : Step A) (a : A) (st : FuseState)
      → compose_rest ms i s a st ≡ step_of_emitted (steps_from ms i) (s a st)
  compose_rest-steps [] i s a st = emitted_id i (s a st)
  compose_rest-steps (m ∷ ms) i s a st =
      compose_rest-steps ms (counted m i) (compose_steps s (build_step_from_metadata m i)) a st
      ∙ emitted_twice (build_step_from_metadata m i) (steps_from ms (counted m i)) (s a st)

  -- The steps that are left when the counters stand as they do.
  abbrev pub remaining :
      List (PurePipelineMetadata A) → ℕ → FuseState → List (PurePipelineMetadata A)
  remaining [] i st = []
  remaining (map_meta f ∷ ms) i st = map_meta f ∷ remaining ms i st
  remaining (filter_meta p ∷ ms) i st = filter_meta p ∷ remaining ms i st
  remaining (take_meta n ∷ ms) i st = take_meta (n - counter i st) ∷ remaining ms (suc i) st
  remaining (drop_meta n ∷ ms) i st = drop_meta (n - counter i st) ∷ remaining ms (suc i) st

  pub remaining-count_up :
      (ms : List (PurePipelineMetadata A)) (i j : ℕ) (st : FuseState)
      → i < j
      → remaining ms j (count_up i st) ≡ remaining ms j st
  remaining-count_up [] i j st h = refl
  remaining-count_up (map_meta f ∷ ms) i j st h =
      ap (λ r. map_meta f ∷ r) (remaining-count_up ms i j st h)
  remaining-count_up (filter_meta p ∷ ms) i j st h =
      ap (λ r. filter_meta p ∷ r) (remaining-count_up ms i j st h)
  remaining-count_up (take_meta n ∷ ms) i j st h =
      ap (λ c. take_meta (n - c) ∷ remaining ms (suc j) (count_up i st))
        (get_or-set_ne st.counters (counter i st + 1) 0 (omega arith))
      ∙ ap (λ r. take_meta (n - counter j st) ∷ r)
          (remaining-count_up ms i (suc j) st (omega arith))
  remaining-count_up (drop_meta n ∷ ms) i j st h =
      ap (λ c. drop_meta (n - c) ∷ remaining ms (suc j) (count_up i st))
        (get_or-set_ne st.counters (counter i st + 1) 0 (omega arith))
      ∙ ap (λ r. drop_meta (n - counter j st) ∷ r)
          (remaining-count_up ms i (suc j) st (omega arith))
