-- ===== src/Streams/Collects.antt =====
-- `collectStream`, with its fast path, `drainStreamSyncFull`; fusion.ts has a copy of that as
-- `drainStreamSync`.
use brass_runtime.Base.{
  ℕ, zero, suc, ◌≤◌, List, [], ◌∷◌, ◌++◌, Option, none, some, ◌⊎◌, inl, inr, ◌≡◌, refl, sym, ap,
  ◌∙◌, arith, subst,
}
use mathlib.Core.List.{append_assoc, append-nil}
use brass_runtime.Streams.{
  succeed, suspended_success, suspended_failure, ZStream, empty_stream, from_array, emit_stream,
  concat_stream, from_pull, Pull, ended, broken, next, uncons, elements_of, elements_of_pull,
}
use brass_runtime.Streams.Runs.{
  Run, over, fails, gives, run_of, run_of_pull, run_of_array, followed_by, run-uncons,
  elements-uncons,
}

module _ {E A : Type 0} where
  -- `result` is the array that the values are pushed to; the loop goes on with the right stream.
  pub drain_into : List A → ZStream E A → Option (List A)
  drain_into result empty_stream = some result
  drain_into result (from_array values) = some (result ++ values)
  drain_into result (emit_stream (succeed value)) = some (result ++ (value ∷ []))
  drain_into result (emit_stream (suspended_success a)) = none
  drain_into result (emit_stream (suspended_failure e)) = none
  drain_into result (concat_stream left right) = elim (drain_into [] left) [
    | none ↦ none
    | some left_items ↦ drain_into (result ++ left_items) right
  ]
  drain_into result (from_pull pull) = none

  abbrev pub drain_stream_sync : ZStream E A → Option (List A)
  drain_stream_sync stream = drain_into [] stream

  -- `loop` on the outcome of `uncons(cur)`.
  pub collect_loop : ℕ → Pull E A → List A → E ⊎ List A
  collect_loop fuel ended acc = inr acc
  collect_loop fuel (broken e) acc = inl e
  collect_loop zero (next a tail) acc = inr acc
  collect_loop (suc fuel) (next a tail) acc = collect_loop fuel (uncons tail) (acc ++ (a ∷ []))

  abbrev pub collect_rest : Option (List A) → ZStream E A → E ⊎ List A
  collect_rest (some drained) stream = inr drained
  collect_rest none stream = collect_loop (elements_of stream) (uncons stream) []

  unfoldable pub collect_stream : ZStream E A → E ⊎ List A
  unfolding drain_into
  collect_stream stream = collect_rest (drain_stream_sync stream) stream

  -- The elements of a run behind those of `acc`, or its error.
  pub outcome_from : List A → Run E A → E ⊎ List A
  outcome_from acc over = inr acc
  outcome_from acc (fails e) = inl e
  outcome_from acc (gives a rest) = outcome_from (acc ++ (a ∷ [])) rest

  abbrev pub outcome_of : Run E A → E ⊎ List A
  outcome_of run = outcome_from [] run

  followed_by-over : (r : Run E A) → followed_by r over ≡ r
  followed_by-over over = refl
  followed_by-over (fails e) = refl
  followed_by-over (gives a r) = ap (gives a) (followed_by-over r)

  run_of_append :
      (xs ys : List A)
      → followed_by (run_of_array {E = E} xs) (run_of_array ys) ≡ run_of_array (xs ++ ys)
  run_of_append [] ys = refl
  run_of_append (x ∷ xs) ys = ap (gives x) (run_of_append xs ys)

  abbrev Drained : List A → ZStream E A → Option (List A) → Type 0
  Drained result s none = Unit
  Drained result s (some all) =
      (values : List A) × (all ≡ result ++ values) × (run_of s ≡ run_of_array values)

  right-Drained :
      (result left_items : List A) (left right : ZStream E A) (o : Option (List A))
      → run_of left ≡ run_of_array left_items
      → Drained (result ++ left_items) right o
      → Drained result (concat_stream left right) o
  unfolding run_of
  right-Drained result left_items left right none h d = tt
  right-Drained result left_items left right (some all) h (values, e, f) = (
    left_items ++ values,
    e ∙ append_assoc result left_items values,
    ap (λ r. followed_by r (run_of right)) h
        ∙ ap (followed_by (run_of_array left_items)) f
        ∙ run_of_append left_items values,
  )

  left-Drained :
      (result : List A) (left right : ZStream E A) (o : Option (List A))
      → Drained [] left o
      → ((items : List A) → Drained (result ++ items) right (drain_into (result ++ items) right))
      → Drained result
          (concat_stream left right)
          (elim o [ none ↦ none | some items ↦ drain_into (result ++ items) right ])
  left-Drained result left right none d k = tt
  left-Drained result left right (some items) (values, e, f) k =
      right-Drained result items left right (drain_into (result ++ items) right)
        (f ∙ ap (run_of_array {E = E}) (sym e)) (k items)

  drain_into-Drained : (result : List A) (s : ZStream E A) → Drained result s (drain_into result s)
  unfolding drain_into run_of
  drain_into-Drained result empty_stream = ([], sym (append-nil result), refl)
  drain_into-Drained result (from_array values) = (values, refl, refl)
  drain_into-Drained result (emit_stream (succeed value)) = (value ∷ [], refl, refl)
  drain_into-Drained result (emit_stream (suspended_success a)) = tt
  drain_into-Drained result (emit_stream (suspended_failure e)) = tt
  drain_into-Drained result (from_pull pull) = tt
  drain_into-Drained result (concat_stream left right) =
      left-Drained result left right (drain_into [] left) (drain_into-Drained [] left)
        (λ items. drain_into-Drained (result ++ items) right)

  pub drained-run :
      (s : ZStream E A) (xs : List A) → drain_stream_sync s ≡ some xs → run_of s ≡ run_of_array xs
  drained-run s xs e =
      let (values, f, g) = subst (Drained [] s) e (drain_into-Drained [] s) in
      g ∙ ap (run_of_array {E = E}) (sym f)

  outcome-array : (acc xs : List A) → outcome_from acc (run_of_array {E = E} xs) ≡ inr (acc ++ xs)
  unfolding outcome_from
  outcome-array acc [] = ap inr (sym (append-nil acc))
  outcome-array acc (x ∷ xs) =
      outcome-array (acc ++ (x ∷ [])) xs ∙ ap inr (append_assoc acc (x ∷ []) xs)

  collect_loop-outcome :
      (fuel : ℕ) (p : Pull E A) (acc : List A)
      → elements_of_pull p ≤ fuel
      → collect_loop fuel p acc ≡ outcome_from acc (run_of_pull p)
  unfolding collect_loop outcome_from run_of_pull elements_of_pull
  collect_loop-outcome fuel ended acc h = refl
  collect_loop-outcome fuel (broken e) acc h = refl
  collect_loop-outcome zero (next a tail) acc h = absurd (omega arith)
  collect_loop-outcome (suc fuel) (next a tail) acc h =
      collect_loop-outcome fuel (uncons tail) (acc ++ (a ∷ []))
        (omega (arith, elements-uncons tail))
      ∙ ap (outcome_from (acc ++ (a ∷ []))) (sym (run-uncons tail))

  collect_rest-outcome :
      (o : Option (List A)) (s : ZStream E A)
      → drain_stream_sync s ≡ o
      → collect_rest o s ≡ outcome_of (run_of s)
  collect_rest-outcome (some xs) s e =
      sym (ap (outcome_from []) (drained-run s xs e) ∙ outcome-array [] xs)
  collect_rest-outcome none s e =
      collect_loop-outcome (elements_of s) (uncons s) [] (elements-uncons s)
      ∙ ap (outcome_from []) (sym (run-uncons s))

  -- The collection of a stream ends, and gives all the elements of its run in order, or the error
  -- of the run if it has one, on the fast path and on the other.
  pub collect_stream_lem : (s : ZStream E A) → collect_stream s ≡ outcome_of (run_of s)
  unfolding collect_stream
  collect_stream_lem s = collect_rest-outcome (drain_stream_sync s) s refl
