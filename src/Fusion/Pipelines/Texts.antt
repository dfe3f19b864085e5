-- ===== src/Fusion/Pipelines/Texts.antt =====
-- fusion.ts: `serializeFusedPipeline` and `deserializeFusedPipeline`.
-- `Function.prototype.toString` and `new Function`, which gives no function when the text does not
-- parse or is not that of a function, are parameters; `T` is the type of texts.
use brass_runtime.Base.{
  ℕ, Bool, List, [], ◌∷◌, Option, none, some, ◌==◌, if◌then◌else◌, ◌≡◌, refl, ap, ◌∙◌,
}
use brass_runtime.Fusion.{
  PurePipelineMetadata, map_meta, filter_meta, take_meta, drop_meta, fuse_metas,
}
use brass_runtime.Fusion.Applied.{apply_fused}
use brass_runtime.Fusion.Pipelines.{ZPipeline, create_metadata_carrier}

pub data SerializedStep (T : Type 0) : Type 0 where
  map_source : T → SerializedStep T
  filter_source : T → SerializedStep T
  take_count : ℕ → SerializedStep T
  drop_count : ℕ → SerializedStep T

pub record SerializedFusedPipeline (T : Type 0) : Type 0 where
  pub version : ℕ
  pub steps : List (SerializedStep T)

module _ {E A : Type 0} where
  abbrev pub create_deserialized_carrier :
      PurePipelineMetadata A → List (PurePipelineMetadata A) → ZPipeline E A
  create_deserialized_carrier meta metas =
      create_metadata_carrier (meta ∷ metas) (λ input. apply_fused input (fuse_metas meta metas))

  abbrev pub carrier_of : Option (List (PurePipelineMetadata A)) → Option (ZPipeline E A)
  carrier_of none = none
  carrier_of (some []) = none
  carrier_of (some (meta ∷ metas)) = some (create_deserialized_carrier meta metas)

module _ {A T : Type 0} (fn_text : (A → A) → T) (pred_text : (A → Bool) → T) where
  abbrev pub serialize_step : PurePipelineMetadata A → SerializedStep T
  serialize_step (map_meta fn) = map_source (fn_text fn)
  serialize_step (filter_meta pred) = filter_source (pred_text pred)
  serialize_step (take_meta n) = take_count n
  serialize_step (drop_meta n) = drop_count n

  abbrev pub serialize_steps : List (PurePipelineMetadata A) → List (SerializedStep T)
  serialize_steps [] = []
  serialize_steps (meta ∷ metas) = serialize_step meta ∷ serialize_steps metas

  abbrev pub serialize_metas :
      Option (List (PurePipelineMetadata A)) → Option (SerializedFusedPipeline T)
  serialize_metas none = none
  serialize_metas (some []) = none
  serialize_metas (some (meta ∷ metas)) =
      some (record { version = 1; steps = serialize_steps (meta ∷ metas) })

module _ {A : Type 0} where
  abbrev pub meta_of_fn : Option (A → A) → Option (PurePipelineMetadata A)
  meta_of_fn none = none
  meta_of_fn (some fn) = some (map_meta fn)

  abbrev pub meta_of_pred : Option (A → Bool) → Option (PurePipelineMetadata A)
  meta_of_pred none = none
  meta_of_pred (some pred) = some (filter_meta pred)

  abbrev pub with_first :
      Option (PurePipelineMetadata A)
      → Option (List (PurePipelineMetadata A))
      → Option (List (PurePipelineMetadata A))
  with_first (some meta) (some metas) = some (meta ∷ metas)
  with_first (some meta) none = none
  with_first none metas = none

module _ {A T : Type 0} (fn_of : T → Option (A → A)) (pred_of : T → Option (A → Bool)) where
  abbrev pub deserialize_step : SerializedStep T → Option (PurePipelineMetadata A)
  deserialize_step (map_source text) = meta_of_fn (fn_of text)
  deserialize_step (filter_source text) = meta_of_pred (pred_of text)
  deserialize_step (take_count n) = some (take_meta n)
  deserialize_step (drop_count n) = some (drop_meta n)

  -- The loop over the steps, which returns at the first that is not one.
  abbrev pub deserialize_steps : List (SerializedStep T) → Option (List (PurePipelineMetadata A))
  deserialize_steps [] = some []
  deserialize_steps (step ∷ steps) = with_first (deserialize_step step) (deserialize_steps steps)

module _ {E A T : Type 0} where
  unfoldable pub serialize_fused_pipeline :
      ((A → A) → T) → ((A → Bool) → T) → ZPipeline E A → Option (SerializedFusedPipeline T)
  serialize_fused_pipeline fn_text pred_text p = serialize_metas fn_text pred_text p.fused_steps

  unfoldable pub deserialize_fused_pipeline :
      (T → Option (A → A))
      → (T → Option (A → Bool))
      → SerializedFusedPipeline T
      → Option (ZPipeline E A)
  deserialize_fused_pipeline fn_of pred_of serialized =
      if serialized.version == 1
      then carrier_of (deserialize_steps fn_of pred_of serialized.steps)
      else none

module _ {A T : Type 0} (fn_text : (A → A) → T) (pred_text : (A → Bool) → T)
    (fn_of : T → Option (A → A)) (pred_of : T → Option (A → Bool)) where
  -- The texts of the functions of these steps are read as the functions.
  abbrev pub Readable : List (PurePipelineMetadata A) → Type 0
  Readable [] = Unit
  Readable (map_meta fn ∷ ms) = (fn_of (fn_text fn) ≡ some fn) × Readable ms
  Readable (filter_meta pred ∷ ms) = (pred_of (pred_text pred) ≡ some pred) × Readable ms
  Readable (take_meta n ∷ ms) = Readable ms
  Readable (drop_meta n ∷ ms) = Readable ms

  steps_read :
      (ms : List (PurePipelineMetadata A))
      → Readable ms
      → deserialize_steps fn_of pred_of (serialize_steps fn_text pred_text ms) ≡ some ms
  steps_read [] h = refl
  steps_read (map_meta fn ∷ ms) (e, h) =
      ap
        (λ o.
          with_first (meta_of_fn o)
            (deserialize_steps fn_of pred_of (serialize_steps fn_text pred_text ms)))
        e
      ∙ ap (with_first (some (map_meta fn))) (steps_read ms h)
  steps_read (filter_meta pred ∷ ms) (e, h) =
      ap
        (λ o.
          with_first (meta_of_pred o)
            (deserialize_steps fn_of pred_of (serialize_steps fn_text pred_text ms)))
        e
      ∙ ap (with_first (some (filter_meta pred))) (steps_read ms h)
  steps_read (take_meta n ∷ ms) h = ap (with_first (some (take_meta n))) (steps_read ms h)
  steps_read (drop_meta n ∷ ms) h = ap (with_first (some (drop_meta n))) (steps_read ms h)

  -- A fused pipeline whose functions are read from their texts comes back from its serialized form
  -- with the same steps, and applies their fused form.
  pub deserialize-serialize :
      {E : Type 0} (p : ZPipeline E A) (m : PurePipelineMetadata A)
      (ms : List (PurePipelineMetadata A))
      → p.fused_steps ≡ some (m ∷ ms)
      → Readable (m ∷ ms)
      → (serialized : SerializedFusedPipeline T) × (serialize_fused_pipeline fn_text pred_text p
          ≡ some serialized)
        × (deserialize_fused_pipeline fn_of pred_of serialized
            ≡ some (
                create_metadata_carrier {E = E}
                  (m ∷ ms)
                  (λ input. apply_fused input (fuse_metas m ms))))
  unfolding serialize_fused_pipeline deserialize_fused_pipeline
  deserialize-serialize p m ms e h = (
    record { version = 1; steps = serialize_steps fn_text pred_text (m ∷ ms) },
    ap (serialize_metas fn_text pred_text) e,
    ap carrier_of (steps_read (m ∷ ms) h),
  )
