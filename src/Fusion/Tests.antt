-- ===== src/Fusion/Tests.antt =====
-- Witnesses for the theorems on fused pipelines.
use brass_runtime.Base.{
  ℕ, suc, Bool, true, List, [], ◌∷◌, if◌then◌else◌, Option, none, some, ltb, ◌≡◌, refl,
}
use brass_runtime.Streams.{
  ZStream, from_array, emit_stream, concat_stream, from_pull, suspended_success, suspended_failure,
  next,
}
use brass_runtime.Streams.Runs.{fails, run_of, run_of_array, followed_by}
use brass_runtime.Streams.Pipes.{take_p}
use brass_runtime.Fusion.{
  PurePipelineMetadata, map_meta, filter_meta, take_meta, drop_meta, fuse_metas, run_fused_array,
}
use brass_runtime.Fusion.Runs.{fused_metas}
use brass_runtime.Fusion.Runs.Arrays.{apply_metas, run_fused_array_lem}
use brass_runtime.Fusion.Applied.{apply_fused, apply_fused_lem, take_p-fused_differ}
use brass_runtime.Fusion.Pipelines.{
  ZPipeline, map_pipeline, take_pipeline, create_metadata_carrier, and_then, via,
}
use brass_runtime.Fusion.Pipelines.Honest.{IsHonest, operators-IsHonest, via_lem, and_then_lem}
use brass_runtime.Fusion.Pipelines.Texts.{
  SerializedFusedPipeline, serialize_fused_pipeline, deserialize_fused_pipeline,
  deserialize-serialize,
}

abbrev rest_metas : List (PurePipelineMetadata ℕ)
rest_metas = filter_meta (λ n. ltb 2 n) ∷ drop_meta 1 ∷ take_meta 2 ∷ []

abbrev input : List ℕ
input = 0 ∷ 1 ∷ 2 ∷ 3 ∷ 4 ∷ 5 ∷ []

run_input : run_fused_array input (fuse_metas (map_meta suc) rest_metas) ≡ 4 ∷ 5 ∷ []
unfolding run_fused_array
run_input = refl

run_fused_array_lem_example :
    run_fused_array input (fuse_metas (map_meta suc) rest_metas)
    ≡ apply_metas (map_meta suc ∷ rest_metas) input
run_fused_array_lem_example = run_fused_array_lem (map_meta suc) rest_metas input

abbrev pulled : ZStream ℕ ℕ
pulled =
    concat_stream (emit_stream (suspended_success 7))
      (from_pull (next 8 (emit_stream (suspended_failure 9))))

apply_fused_lem_example :
    run_of (apply_fused pulled (fuse_metas (map_meta suc) rest_metas))
    ≡ fused_metas (map_meta suc ∷ rest_metas) (run_of pulled)
apply_fused_lem_example = apply_fused_lem (map_meta suc) rest_metas pulled

abbrev two_values : List ℕ
two_values = 7 ∷ 8 ∷ []

pulled_run : run_of pulled ≡ followed_by (run_of_array two_values) (fails 9)
unfolding run_of
pulled_run = refl

take_p-fused_differ_example :
    (run_of (take_p 2 pulled) ≡ run_of_array two_values)
    × (run_of (apply_fused pulled (fuse_metas (take_meta 2) []))
        ≡ followed_by (run_of_array two_values) (fails 9))
take_p-fused_differ_example = take_p-fused_differ two_values 9 pulled pulled_run

map-IsHonest : IsHonest (map_pipeline {E = ℕ} suc)
map-IsHonest = (operators-IsHonest {E = ℕ} {A = ℕ} suc (λ n. true) 2).0

take-IsHonest : IsHonest (take_pipeline {E = ℕ} {A = ℕ} 2)
take-IsHonest = (operators-IsHonest {E = ℕ} {A = ℕ} suc (λ n. true) 2).2

abbrev both : ZPipeline ℕ ℕ
both = and_then true (map_pipeline suc) (take_pipeline 2)

abbrev array_stream : ZStream ℕ ℕ
array_stream = from_array input

array_run : run_of array_stream ≡ run_of_array input
unfolding run_of
array_run = refl

and_then_lem_example :
    run_of (both.pipe array_stream)
    ≡ run_of ((take_pipeline 2).pipe ((map_pipeline suc).pipe array_stream))
and_then_lem_example =
    and_then_lem true (map_pipeline suc) (take_pipeline 2) array_stream input map-IsHonest
      take-IsHonest array_run

via_lem_example :
    run_of (via true array_stream (take_pipeline 2)) ≡ run_of ((take_pipeline 2).pipe array_stream)
via_lem_example = via_lem true (take_pipeline 2) array_stream input take-IsHonest array_run

-- One function and one predicate, and one text for each.
abbrev text_of_fn : (ℕ → ℕ) → Bool
text_of_fn f = ltb 0 (f 0)

abbrev fn_of_text : Bool → Option (ℕ → ℕ)
fn_of_text text = if text then some suc else none

abbrev text_of_pred : (ℕ → Bool) → Bool
text_of_pred pred = pred 3

abbrev pred_of_text : Bool → Option (ℕ → Bool)
pred_of_text text = some (λ n. ltb 2 n)

abbrev carrier : ZPipeline ℕ ℕ
carrier = create_metadata_carrier (map_meta suc ∷ rest_metas) (λ s. s)

deserialize-serialize_example :
    (serialized : SerializedFusedPipeline Bool) × (serialize_fused_pipeline text_of_fn text_of_pred
        carrier
      ≡ some serialized)
    × (deserialize_fused_pipeline {E = ℕ} fn_of_text pred_of_text serialized
        ≡ some (
            create_metadata_carrier
              (map_meta suc ∷ rest_metas)
              (λ s. apply_fused s (fuse_metas (map_meta suc) rest_metas))))
deserialize-serialize_example =
    deserialize-serialize text_of_fn text_of_pred fn_of_text pred_of_text carrier (map_meta suc)
      rest_metas refl (refl, (refl, tt))
