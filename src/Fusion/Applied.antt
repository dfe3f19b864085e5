-- ===== src/Fusion/Applied.antt =====
-- `applyFused`: the fast path over the array of a stream that can be drained, and the loop that
-- pulls any other stream. The state of that loop is written out; it is made when the pipeline is
-- applied, so this is the loop as it goes when its stream is pulled once.
use brass_runtime.Base.{
  ℕ, zero, suc, ◌<◌, List, [], ◌∷◌, length, Option, none, some, ◌≡◌, refl, sym, ap, ◌∙◌, arith,
}
use brass_runtime.Streams.{ZStream, from_pull, Pull, ended, next, uncons, elements_of, stream_of}
use brass_runtime.Streams.Runs.{Run, fails, gives, run_of, run_of_pull, run_of_array, followed_by}
use brass_runtime.Streams.Collects.{drain_stream_sync, drained-run}
use brass_runtime.Streams.Pipes.{fold_pull, take_p}
use brass_runtime.Streams.Pipes.Agrees.{pulled-run, take_run, take_p-run}
use brass_runtime.Fusion.{
  PurePipelineMetadata, take_meta, FuseResult, emit, skip, halt, FuseState, Step, FusedPipelineRepr,
  fuse_metas, run_fused_array,
}
use brass_runtime.Fusion.Runs.{fused_take, fused_metas}
use brass_runtime.Fusion.Runs.Whole.{given, through, through-fused}
use brass_runtime.Fusion.Runs.Arrays.{run_fused-through}

module _ {E A : Type 0} where
  -- The switch on the result of the step; `rest` is the loop on the tail.
  abbrev pub switch_result : FuseResult A × FuseState → (FuseState → Pull E A) → Pull E A
  switch_result (emit b, state) rest = next b (from_pull (rest state))
  switch_result (skip, state) rest = rest state
  switch_result (halt, state) rest = ended

  pub apply_loop : ℕ → Step A → ZStream E A → FuseState → Pull E A
  apply_loop zero step cur state = ended
  apply_loop (suc fuel) step cur state =
      fold_pull (uncons cur) (λ a tail. switch_result (step a state) (apply_loop fuel step tail))

  abbrev pub apply_drained : Option (List A) → ZStream E A → FusedPipelineRepr A → ZStream E A
  apply_drained (some input) stream fused = stream_of (run_fused_array input fused)
  apply_drained none stream fused =
      from_pull (apply_loop (suc (elements_of stream)) fused.step stream fused.init_state)

  unfoldable pub apply_fused : ZStream E A → FusedPipelineRepr A → ZStream E A
  unfolding apply_loop
  apply_fused stream fused = apply_drained (drain_stream_sync stream) stream fused

  switch-given :
      (r : FuseResult A × FuseState) (f : FuseState → Pull E A) (g : FuseState → Run E A)
      → ((st : FuseState) → run_of_pull (f st) ≡ g st)
      → run_of_pull (switch_result r f) ≡ given r g
  unfolding run_of
  switch-given (emit b, st) f g h = ap (gives b) (h st)
  switch-given (skip, st) f g h = h st
  switch-given (halt, st) f g h = refl

  apply_loop-through :
      (fuel : ℕ) (step : Step A) (s : ZStream E A) (st : FuseState)
      → elements_of s < fuel
      → run_of_pull (apply_loop fuel step s st) ≡ through step st (run_of s)
  unfolding apply_loop
  apply_loop-through zero step s st h = absurd (omega arith)
  apply_loop-through (suc fuel) step s st h =
      pulled-run s (λ a tail. switch_result (step a st) (apply_loop fuel step tail))
        (through step st) refl (λ e. refl)
        (λ a tail l.
          switch-given (step a st) (apply_loop fuel step tail)
            (λ st'. through step st' (run_of tail))
            (λ st'. apply_loop-through fuel step tail st' (omega arith)))

  run-stream_of : (xs : List A) → run_of {E = E} (stream_of xs) ≡ run_of_array xs
  unfolding run_of
  run-stream_of [] = refl
  run-stream_of (x ∷ xs) = refl

  apply_drained-through :
      (o : Option (List A)) (s : ZStream E A) (fused : FusedPipelineRepr A)
      → drain_stream_sync s ≡ o
      → run_of (apply_drained o s fused) ≡ through fused.step fused.init_state (run_of s)
  unfolding run_fused_array run_of
  apply_drained-through (some xs) s fused e =
      run-stream_of (run_fused_array xs fused)
      ∙ run_fused-through E fused.step xs fused.init_state
      ∙ ap (through fused.step fused.init_state) (sym (drained-run s xs e))
  apply_drained-through none s fused e =
      apply_loop-through (suc (elements_of s)) fused.step s fused.init_state (omega arith)

  -- A fused pipeline that is applied to a stream does to its elements what its steps do one after
  -- the other, on the fast path and on the other; the error of the stream comes through unless a
  -- take has ended the run, for which it pulls one element more than it takes.
  pub apply_fused_lem :
      (m : PurePipelineMetadata A) (ms : List (PurePipelineMetadata A)) (s : ZStream E A)
      → run_of (apply_fused s (fuse_metas m ms)) ≡ fused_metas (m ∷ ms) (run_of s)
  unfolding apply_fused
  apply_fused_lem m ms s =
      apply_drained-through (drain_stream_sync s) s (fuse_metas m ms) refl
      ∙ through-fused m ms (run_of s)

  take-before_error :
      (xs : List A) (e : E)
      → take_run (length xs) (followed_by (run_of_array xs) (fails e)) ≡ run_of_array xs
  take-before_error [] e = refl
  take-before_error (x ∷ xs) e = ap (gives x) (take-before_error xs e)

  fused_take-before_error :
      (xs : List A) (e : E)
      → fused_take (length xs) (followed_by (run_of_array xs) (fails e))
        ≡ followed_by (run_of_array xs) (fails e)
  fused_take-before_error [] e = refl
  fused_take-before_error (x ∷ xs) e = ap (gives x) (fused_take-before_error xs e)

  -- On a stream of n elements and then an error, takeP(n) gives the n elements and ends, while its
  -- fused step gives them and fails with the error.
  pub take_p-fused_differ :
      (xs : List A) (e : E) (s : ZStream E A)
      → run_of s ≡ followed_by (run_of_array xs) (fails e)
      → (run_of (take_p (length xs) s) ≡ run_of_array xs)
        × (run_of (apply_fused s (fuse_metas (take_meta (length xs)) []))
            ≡ followed_by (run_of_array xs) (fails e))
  take_p-fused_differ xs e s h = (
    take_p-run (length xs) s ∙ ap (take_run (length xs)) h ∙ take-before_error xs e,
    apply_fused_lem (take_meta (length xs)) [] s
        ∙ ap (fused_take (length xs)) h
        ∙ fused_take-before_error xs e,
  )
