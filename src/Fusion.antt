-- ===== src/Fusion.antt =====
-- core/stream/fusion.ts, and the composition of pipelines in pipeline.ts.
-- The steps of a pipeline are untyped in the code (`any`); all their values are of one type `A`
-- here. Counts are natural numbers. A step reads and writes the counters, which it is given and
-- gives back. Only a take or a drop has a counter: the index -1 of the others, which nothing
-- reads, is that of the next counter. Messages of the verbose mode are left out.
pub mod Runs
pub mod Applied
pub mod Pipelines
mod Tests
use brass_runtime.Base.{
  ℕ, suc, ◌+◌, Bool, true, false, ◌||◌, List, [], ◌∷◌, map, length, get_or, set, replicate, ltb,
  leb, if◌then◌else◌,
}

pub data PurePipelineMetadata (A : Type 0) : Type 0 where
  map_meta : (A → A) → PurePipelineMetadata A
  filter_meta : (A → Bool) → PurePipelineMetadata A
  take_meta : ℕ → PurePipelineMetadata A
  drop_meta : ℕ → PurePipelineMetadata A

pub data FuseResult (A : Type 0) : Type 0 where
  emit : A → FuseResult A
  skip : FuseResult A
  halt : FuseResult A

pub record FuseState : Type 0 where
  pub counters : List ℕ

pub data FusedStep : Type 0 where
  map_step : FusedStep
  filter_step : FusedStep
  take_step : ℕ → FusedStep
  drop_step : ℕ → FusedStep

pub record FusedPipelineStats : Type 0 where
  pub fused_steps : ℕ
  pub steps : List FusedStep
  pub has_take : Bool
  pub has_drop : Bool

abbrev pub Step : Type 0 → Type 0
Step A = A → FuseState → FuseResult A × FuseState

pub record FusedPipelineRepr (A : Type 0) : Type 0 where
  pub step : Step A
  pub init_state : FuseState
  pub stats : FusedPipelineStats

-- `state.counters[index]`, and its increment
abbrev pub counter : ℕ → FuseState → ℕ
counter index state = get_or state.counters index 0

abbrev pub count_up : ℕ → FuseState → FuseState
count_up index state = record { counters = set state.counters index (counter index state + 1) }

module _ {A : Type 0} where
  abbrev pub make_map_step : (A → A) → Step A
  make_map_step fn a state = (emit (fn a), state)

  abbrev pub make_filter_step : (A → Bool) → Step A
  make_filter_step pred a state = (if pred a then emit a else skip, state)

  abbrev pub make_take_step : ℕ → ℕ → Step A
  make_take_step n index a state =
      if leb n (counter index state) then (halt, state) else (emit a, count_up index state)

  abbrev pub make_drop_step : ℕ → ℕ → Step A
  make_drop_step n index a state =
      if ltb (counter index state) n then (skip, count_up index state) else (emit a, state)

  abbrev pub step_of_emitted : Step A → FuseResult A × FuseState → FuseResult A × FuseState
  step_of_emitted step2 (emit b, state) = step2 b state
  step_of_emitted step2 (skip, state) = (skip, state)
  step_of_emitted step2 (halt, state) = (halt, state)

  abbrev pub compose_steps : Step A → Step A → Step A
  compose_steps step1 step2 a state = step_of_emitted step2 (step1 a state)

  abbrev pub build_step_from_metadata : PurePipelineMetadata A → ℕ → Step A
  build_step_from_metadata (map_meta fn) index = make_map_step fn
  build_step_from_metadata (filter_meta pred) index = make_filter_step pred
  build_step_from_metadata (take_meta n) index = make_take_step n index
  build_step_from_metadata (drop_meta n) index = make_drop_step n index

  abbrev pub is_take : PurePipelineMetadata A → Bool
  is_take (take_meta n) = true
  is_take (map_meta fn) = false
  is_take (filter_meta pred) = false
  is_take (drop_meta n) = false

  abbrev pub is_drop : PurePipelineMetadata A → Bool
  is_drop (drop_meta n) = true
  is_drop (map_meta fn) = false
  is_drop (filter_meta pred) = false
  is_drop (take_meta n) = false

  -- `counterIndex++` where the step has a counter
  abbrev pub counted : PurePipelineMetadata A → ℕ → ℕ
  counted meta n = if is_take meta || is_drop meta then suc n else n

  abbrev pub count_counters : List (PurePipelineMetadata A) → ℕ
  count_counters [] = 0
  count_counters (meta ∷ metas) = counted meta (count_counters metas)

  abbrev pub stats_step : PurePipelineMetadata A → FusedStep
  stats_step (map_meta fn) = map_step
  stats_step (filter_meta pred) = filter_step
  stats_step (take_meta n) = take_step n
  stats_step (drop_meta n) = drop_step n

  abbrev pub some_meta : (PurePipelineMetadata A → Bool) → List (PurePipelineMetadata A) → Bool
  some_meta test [] = false
  some_meta test (meta ∷ metas) = test meta || some_meta test metas

  abbrev pub build_stats : List (PurePipelineMetadata A) → FusedPipelineStats
  build_stats metas = record {
    fused_steps = length (map stats_step metas);
    steps = map stats_step metas;
    has_take = some_meta is_take metas;
    has_drop = some_meta is_drop metas;
  }

  -- The loop that composes the steps from the second on.
  abbrev pub compose_rest : List (PurePipelineMetadata A) → ℕ → Step A → Step A
  compose_rest [] index composed = composed
  compose_rest (meta ∷ metas) index composed =
      compose_rest metas (counted meta index)
        (compose_steps composed (build_step_from_metadata meta index))

  abbrev pub fuse_metas :
      PurePipelineMetadata A → List (PurePipelineMetadata A) → FusedPipelineRepr A
  fuse_metas meta metas = record {
    step = compose_rest metas (counted meta 0) (build_step_from_metadata meta 0);
    init_state = record { counters = replicate (count_counters (meta ∷ metas)) 0 };
    stats = build_stats (meta ∷ metas);
  }

  -- The body of the loop; `rest` goes on with the loop from a state.
  abbrev pub push_result : FuseResult A × FuseState → (FuseState → List A) → List A
  push_result (emit b, state) rest = b ∷ rest state
  push_result (skip, state) rest = rest state
  push_result (halt, state) rest = []

  -- The loop over the array, from the state on.
  pub run_fused : Step A → List A → FuseState → List A
  run_fused step [] state = []
  run_fused step (a ∷ input) state = push_result (step a state) (run_fused step input)

  unfoldable pub run_fused_array : List A → FusedPipelineRepr A → List A
  unfolding run_fused
  run_fused_array input fused = run_fused fused.step input fused.init_state
