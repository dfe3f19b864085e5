-- ===== src/Fusion/Pipelines/Honest.antt =====
-- Pipelines whose metadata say what they do.
use brass_runtime.Base.{
  ℕ, zero, suc, Bool, true, false, ◌||◌, List, [], ◌∷◌, ◌++◌, Option, none, some, is_some,
  if◌then◌else◌, ◌≡◌, refl, sym, ap, ◌∙◌, subst,
}
use brass_runtime.Streams.{ZStream}
use brass_runtime.Streams.Runs.{gives, run_of, run_of_array}
use brass_runtime.Streams.Pipes.{map_p, filter_p, take_p, drop_p}
use brass_runtime.Streams.Pipes.Agrees.{
  map_run, filter_run, take_run, drop_run, map_p-run, filter_p-run, take_p-run, drop_p-run,
}
use brass_runtime.Fusion.{
  PurePipelineMetadata, map_meta, filter_meta, take_meta, drop_meta, fuse_metas,
}
use brass_runtime.Fusion.Runs.{fused_metas}
use brass_runtime.Fusion.Runs.Arrays.{take, apply_metas, apply_metas-append, metas-array}
use brass_runtime.Fusion.Applied.{apply_fused, apply_fused_lem}
use brass_runtime.Fusion.Pipelines.{
  ZPipeline, tagged, map_pipeline, filter_pipeline, take_pipeline, drop_pipeline, collect_metadata,
  fuse_collected, applied_or, via, create_metadata_carrier, fused_pipeline, fuse_both,
  fused_or_composed, and_then,
}

module _ {A : Type 0} where
  abbrev known :
      List (PurePipelineMetadata A)
      → Option (List (PurePipelineMetadata A))
      → List (PurePipelineMetadata A)
  known ms (some ns) = ns
  known ms none = ms

  nothing_known :
      (ms : List (PurePipelineMetadata A))
      → ◌≡◌ {A = Option (List (PurePipelineMetadata A))} none (some ms)
      → ⊥
  nothing_known ms e = cc

module _ {E A : Type 0} where
  -- Applied to a stream without an error, the function gives what the steps give.
  abbrev pub Does : List (PurePipelineMetadata A) → (ZStream E A → ZStream E A) → Type 0
  Does ms pipe =
      (s : ZStream E A) (xs : List A)
      → run_of s ≡ run_of_array xs
      → run_of (pipe s) ≡ run_of_array (apply_metas ms xs)

  pub record IsHonest (p : ZPipeline E A) : Type 0 where
    pub does : (ms : List (PurePipelineMetadata A)) → collect_metadata p ≡ some ms → Does ms p.pipe

  Does-same :
      (ms ns : List (PurePipelineMetadata A)) (pipe : ZStream E A → ZStream E A)
      → some ms ≡ some ns
      → Does ms pipe
      → Does ns pipe
  Does-same ms ns pipe e d = subst (λ ms. Does ms pipe) (ap (known ms) e) d

  tagged-IsHonest :
      (m : PurePipelineMetadata A) (pipe : ZStream E A → ZStream E A)
      → Does (m ∷ []) pipe
      → IsHonest (tagged m pipe)
  tagged-IsHonest m pipe d = record { does = λ ms e. Does-same (m ∷ []) ms pipe e d }

  carrier-IsHonest :
      (ms : List (PurePipelineMetadata A)) (pipe : ZStream E A → ZStream E A)
      → Does ms pipe
      → IsHonest (create_metadata_carrier ms pipe)
  carrier-IsHonest ms pipe d = record { does = λ ns e. Does-same ms ns pipe e d }

  fused-Does :
      (m : PurePipelineMetadata A) (ms : List (PurePipelineMetadata A))
      → Does (m ∷ ms) (λ input. apply_fused input (fuse_metas m ms))
  fused-Does m ms s xs e =
      apply_fused_lem m ms s ∙ ap (fused_metas (m ∷ ms)) e ∙ metas-array E (m ∷ ms) xs

  take_run-array :
      (n : ℕ) (xs : List A) → take_run {E = E} n (run_of_array xs) ≡ run_of_array (take n xs)
  take_run-array zero xs = refl
  take_run-array (suc n) [] = refl
  take_run-array (suc n) (x ∷ xs) = ap (gives x) (take_run-array n xs)

  -- mapP, filterP, takeP and dropP do what their tags say, on streams without an error.
  pub operators-IsHonest :
      (f : A → A) (pred : A → Bool) (n : ℕ)
      → IsHonest (map_pipeline f)
        × IsHonest (filter_pipeline pred)
        × IsHonest (take_pipeline n)
        × IsHonest (drop_pipeline n)
  operators-IsHonest f pred n = (
    tagged-IsHonest (map_meta f) (map_p f)
        (λ s xs e. map_p-run f s ∙ ap (map_run f) e ∙ metas-array E (map_meta f ∷ []) xs),
    tagged-IsHonest (filter_meta pred) (filter_p pred) (λ s xs e.
        filter_p-run pred s ∙ ap (filter_run pred) e ∙ metas-array E (filter_meta pred ∷ []) xs),
    tagged-IsHonest (take_meta n) (take_p n)
        (λ s xs e. take_p-run n s ∙ ap (take_run n) e ∙ take_run-array n xs),
    tagged-IsHonest (drop_meta n) (drop_p n)
        (λ s xs e. drop_p-run n s ∙ ap (drop_run n) e ∙ metas-array E (drop_meta n ∷ []) xs),
  )

  -- A fused form is that of the metadata that were collected.
  applied_or-Does :
      (o : Option (List (PurePipelineMetadata A))) (p : ZPipeline E A) (s : ZStream E A)
      (xs : List A)
      → ((ms : List (PurePipelineMetadata A)) → o ≡ some ms → Does ms p.pipe)
      → run_of s ≡ run_of_array xs
      → run_of (applied_or (fuse_collected o) p s) ≡ run_of (p.pipe s)
  applied_or-Does none p s xs d e = refl
  applied_or-Does (some []) p s xs d e = refl
  applied_or-Does (some (m ∷ ms)) p s xs d e = fused-Does m ms s xs e ∙ sym (d (m ∷ ms) refl s xs e)

  -- via gives what the pipeline gives as a function, whether it is fused or not, on every stream
  -- without an error and for every pipeline whose metadata say what it does.
  pub via_lem :
      (globally : Bool) (p : ZPipeline E A) (s : ZStream E A) (xs : List A)
      → IsHonest p
      → run_of s ≡ run_of_array xs
      → run_of (via globally s p) ≡ run_of (p.pipe s)
  unfolding via
  via_lem false p s xs h e = refl
  via_lem true p s xs h e = via_tagged (is_some p.fused_steps || is_some p.pure_tag)
    where
      via_tagged :
          (b : Bool)
          → run_of (if b then applied_or (fuse_collected (collect_metadata p)) p s else p.pipe s)
            ≡ run_of (p.pipe s)
      via_tagged true = applied_or-Does (collect_metadata p) p s xs h.does e
      via_tagged false = refl

  abbrev Composed :
      (ZStream E A → ZStream E A) → (ZStream E A → ZStream E A) → ZPipeline E A → Type 0
  Composed f g p =
      IsHonest p
      × ((s : ZStream E A) (xs : List A)
          → run_of s ≡ run_of_array xs
          → run_of (p.pipe s) ≡ run_of (g (f s)))

  unfused : (p1 p2 : ZPipeline E A) → Composed p1.pipe p2.pipe (fused_or_composed none p1 p2)
  unfused p1 p2 = (record { does = λ ms e. absurd (nothing_known ms e) }, λ s xs e. refl)

  fused_pipeline-Composed :
      (ms ns combined : List (PurePipelineMetadata A)) (p1 p2 : ZPipeline E A)
      → combined ≡ ms ++ ns
      → Does ms p1.pipe
      → Does ns p2.pipe
      → Composed p1.pipe p2.pipe
          (fused_or_composed (fused_pipeline combined (fuse_collected (some combined))) p1 p2)
  fused_pipeline-Composed ms ns [] p1 p2 c d1 d2 = unfused p1 p2
  fused_pipeline-Composed ms ns (m ∷ rest) p1 p2 c d1 d2 = (
    carrier-IsHonest (m ∷ rest) (λ input. apply_fused input (fuse_metas m rest))
        (fused-Does m rest),
    λ s xs e.
        fused-Does m rest s xs e
        ∙ ap (λ all. run_of_array (apply_metas all xs)) c
        ∙ ap run_of_array (apply_metas-append ms ns xs)
        ∙ sym (d2 (p1.pipe s) (apply_metas ms xs) (d1 s xs e)),
  )

  fuse_both-Composed :
      (o1 o2 : Option (List (PurePipelineMetadata A))) (p1 p2 : ZPipeline E A)
      → ((ms : List (PurePipelineMetadata A)) → o1 ≡ some ms → Does ms p1.pipe)
      → ((ms : List (PurePipelineMetadata A)) → o2 ≡ some ms → Does ms p2.pipe)
      → Composed p1.pipe p2.pipe (fused_or_composed (fuse_both true o1 o2) p1 p2)
  fuse_both-Composed none o2 p1 p2 d1 d2 = unfused p1 p2
  fuse_both-Composed (some ms) none p1 p2 d1 d2 = unfused p1 p2
  fuse_both-Composed (some ms) (some ns) p1 p2 d1 d2 =
      fused_pipeline-Composed ms ns (ms ++ ns) p1 p2 refl (d1 ms refl) (d2 ns refl)

  and_then-Composed :
      (globally : Bool) (p1 p2 : ZPipeline E A)
      → IsHonest p1
      → IsHonest p2
      → Composed p1.pipe p2.pipe (and_then globally p1 p2)
  unfolding and_then
  and_then-Composed false p1 p2 h1 h2 = unfused p1 p2
  and_then-Composed true p1 p2 h1 h2 =
      fuse_both-Composed (collect_metadata p1) (collect_metadata p2) p1 p2 h1.does h2.does

  -- The metadata of a pipeline that andThen makes say what it does, so that it can be composed
  -- again.
  pub and_then-IsHonest :
      (globally : Bool) (p1 p2 : ZPipeline E A)
      → IsHonest p1
      → IsHonest p2
      → IsHonest (and_then globally p1 p2)
  and_then-IsHonest globally p1 p2 h1 h2 = (and_then-Composed globally p1 p2 h1 h2).0

  -- For two pipelines whose metadata say what they do, and on a stream without an error, andThen
  -- does what the two do one after the other, whether it fuses them or not.
  pub and_then_lem :
      (globally : Bool) (p1 p2 : ZPipeline E A) (s : ZStream E A) (xs : List A)
      → IsHonest p1
      → IsHonest p2
      → run_of s ≡ run_of_array xs
      → run_of ((and_then globally p1 p2).pipe s) ≡ run_of (p2.pipe (p1.pipe s))
  and_then_lem globally p1 p2 s xs h1 h2 e = (and_then-Composed globally p1 p2 h1 h2).1 s xs e
