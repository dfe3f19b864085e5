-- ===== src/Fusion/Pipelines.antt =====
-- fusion.ts: `fuse`; pipeline.ts: the tags of the pure operators, `via` and `andThen`.
-- A pipeline is the function that it is and the two properties that are set on it. The cache of
-- the fused form, which is computed from them, is left out.
pub mod Honest
pub mod Texts
use brass_runtime.Base.{
  ℕ, Bool, not, ◌&&◌, ◌||◌, List, [], ◌∷◌, ◌++◌, Option, none, some, is_some, if◌then◌else◌,
}
use brass_runtime.Streams.{ZStream}
use brass_runtime.Streams.Pipes.{map_p, filter_p, take_p, drop_p}
use brass_runtime.Fusion.{
  PurePipelineMetadata, map_meta, filter_meta, take_meta, drop_meta, FusedPipelineRepr, fuse_metas,
  FusedPipelineStats, build_stats,
}
use brass_runtime.Fusion.Applied.{apply_fused}

pub record ZPipeline (E A : Type 0) : Type 0 where
  pub pure_tag : Option (PurePipelineMetadata A)
  pub fused_steps : Option (List (PurePipelineMetadata A))
  pub pipe : ZStream E A → ZStream E A

-- The test at the start of `fuse`: an option for the call goes before the global flag.
abbrev pub fusion_disabled : Option Bool → Bool → Bool
fusion_disabled (some enabled) globally = not enabled
fusion_disabled none globally = not globally

module _ {A : Type 0} where
  abbrev pub metas_or_tag :
      Option (List (PurePipelineMetadata A))
      → Option (PurePipelineMetadata A)
      → Option (List (PurePipelineMetadata A))
  metas_or_tag (some metas) tag = some metas
  metas_or_tag none (some tag) = some (tag ∷ [])
  metas_or_tag none none = none

  abbrev pub fuse_collected : Option (List (PurePipelineMetadata A)) → Option (FusedPipelineRepr A)
  fuse_collected none = none
  fuse_collected (some []) = none
  fuse_collected (some (meta ∷ metas)) = some (fuse_metas meta metas)

  abbrev pub stats_of : Option (List (PurePipelineMetadata A)) → Option FusedPipelineStats
  stats_of (some metas) = some (build_stats metas)
  stats_of none = none

module _ {E A : Type 0} where
  abbrev pub tagged : PurePipelineMetadata A → (ZStream E A → ZStream E A) → ZPipeline E A
  tagged meta pipe = record { pure_tag = some meta; fused_steps = none; pipe = pipe }

  abbrev pub map_pipeline : (A → A) → ZPipeline E A
  map_pipeline f = tagged (map_meta f) (map_p f)

  abbrev pub filter_pipeline : (A → Bool) → ZPipeline E A
  filter_pipeline pred = tagged (filter_meta pred) (filter_p pred)

  abbrev pub take_pipeline : ℕ → ZPipeline E A
  take_pipeline n = tagged (take_meta n) (take_p n)

  abbrev pub drop_pipeline : ℕ → ZPipeline E A
  drop_pipeline n = tagged (drop_meta n) (drop_p n)

  -- `collectMetadata`, which `collectPureMetas` repeats
  abbrev pub collect_metadata : ZPipeline E A → Option (List (PurePipelineMetadata A))
  collect_metadata p = metas_or_tag p.fused_steps p.pure_tag

  abbrev pub fuse : Option Bool → Bool → ZPipeline E A → Option (FusedPipelineRepr A)
  fuse options globally p =
      if fusion_disabled options globally then none else fuse_collected (collect_metadata p)

  abbrev pub get_stats : ZPipeline E A → Option FusedPipelineStats
  get_stats p = stats_of p.fused_steps

  abbrev pub applied_or : Option (FusedPipelineRepr A) → ZPipeline E A → ZStream E A → ZStream E A
  applied_or (some fused) p stream = apply_fused stream fused
  applied_or none p stream = p.pipe stream

  unfoldable pub via : Bool → ZStream E A → ZPipeline E A → ZStream E A
  via globally stream p =
      if globally && (is_some p.fused_steps || is_some p.pure_tag)
      then applied_or (fuse none globally p) p stream
      else p.pipe stream

  abbrev pub create_metadata_carrier :
      List (PurePipelineMetadata A) → (ZStream E A → ZStream E A) → ZPipeline E A
  create_metadata_carrier metas pipe = record {
    pure_tag = none;
    fused_steps = some metas;
    pipe = pipe;
  }

  abbrev pub fused_pipeline :
      List (PurePipelineMetadata A) → Option (FusedPipelineRepr A) → Option (ZPipeline E A)
  fused_pipeline combined none = none
  fused_pipeline combined (some fused) =
      some (create_metadata_carrier combined (λ input. apply_fused input fused))

  abbrev pub fuse_both :
      Bool
      → Option (List (PurePipelineMetadata A))
      → Option (List (PurePipelineMetadata A))
      → Option (ZPipeline E A)
  fuse_both globally (some metas1) (some metas2) =
      fused_pipeline (metas1 ++ metas2)
        (fuse none globally (create_metadata_carrier (metas1 ++ metas2) (λ input. input)))
  fuse_both globally none metas2 = none
  fuse_both globally (some metas1) none = none

  abbrev pub try_fuse : Bool → ZPipeline E A → ZPipeline E A → Option (ZPipeline E A)
  try_fuse globally p1 p2 =
      if not globally then none else fuse_both globally (collect_metadata p1) (collect_metadata p2)

  abbrev pub fused_or_composed :
      Option (ZPipeline E A) → ZPipeline E A → ZPipeline E A → ZPipeline E A
  fused_or_composed (some fused) p1 p2 = fused
  fused_or_composed none p1 p2 = record {
    pure_tag = none;
    fused_steps = none;
    pipe = λ input. p2.pipe (p1.pipe input);
  }

  unfoldable pub and_then : Bool → ZPipeline E A → ZPipeline E A → ZPipeline E A
  and_then globally p1 p2 = fused_or_composed (try_fuse globally p1 p2) p1 p2
