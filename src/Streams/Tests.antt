-- ===== src/Streams/Tests.antt =====
-- Witnesses for the theorems on streams: a stream that ends with an error, and one that can be
-- drained.
use brass_runtime.Base.{ℕ, [], ◌∷◌, inr, ◌≡◌, refl}
use brass_runtime.Streams.{
  ZStream, from_array, emit_stream, concat_stream, from_pull, succeed, suspended_success,
  suspended_failure, next,
}
use brass_runtime.Streams.Runs.{run_of}
use brass_runtime.Streams.Collects.{collect_stream, outcome_of, collect_stream_lem}

abbrev drainable : ZStream ℕ ℕ
drainable =
    concat_stream (from_array (1 ∷ 2 ∷ []))
      (concat_stream (emit_stream (succeed 3)) (from_array (4 ∷ [])))

abbrev failing : ZStream ℕ ℕ
failing =
    concat_stream (emit_stream (suspended_success 1))
      (from_pull (next 2 (emit_stream (suspended_failure 9))))

collect_drainable : collect_stream drainable ≡ inr (1 ∷ 2 ∷ 3 ∷ 4 ∷ [])
unfolding collect_stream
collect_drainable = refl

collect_stream_lem_example : collect_stream failing ≡ outcome_of (run_of failing)
collect_stream_lem_example = collect_stream_lem failing
