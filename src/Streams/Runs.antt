-- ===== src/Streams/Runs.antt =====
-- What a stream gives to whoever pulls it until it ends: its elements in order, and then its end
-- or its error.
use brass_runtime.Base.{ℕ, ◌+◌, ◌≤◌, List, [], ◌∷◌, length, ◌≡◌, refl, ap, arith, ◌∙◌}
use brass_runtime.Streams.{
  Zio, succeed, suspended_success, suspended_failure, ZStream, empty_stream, from_array,
  emit_stream, concat_stream, from_pull, Pull, ended, broken, next, uncons, uncons_array,
  uncons_emit, or_else_right, elements_of, elements_of_pull,
}

pub data Run (E A : Type 0) : Type 0 where
  over : Run E A
  fails : E → Run E A
  gives : A → Run E A → Run E A

elements-uncons_array :
    (E : Type 0) {A : Type 0} (values : List A)
    → elements_of_pull {E = E} (uncons_array values) ≡ length values
unfolding elements_of elements_of_pull
elements-uncons_array E [] = refl
elements-uncons_array E (a ∷ []) = refl
elements-uncons_array E (a ∷ b ∷ rest) = refl

module _ {E A : Type 0} where
  abbrev pub run_of_array : List A → Run E A
  run_of_array [] = over
  run_of_array (a ∷ rest) = gives a (run_of_array rest)

  abbrev pub run_of_emit : Zio E A → Run E A
  run_of_emit (succeed a) = gives a over
  run_of_emit (suspended_success a) = gives a over
  run_of_emit (suspended_failure e) = fails e

  -- The right run after the left one, if that ends without an error.
  abbrev pub followed_by : Run E A → Run E A → Run E A
  followed_by over right = right
  followed_by (fails e) right = fails e
  followed_by (gives a rest) right = gives a (followed_by rest right)

  unfoldable mutual
    pub run_of : ZStream E A → Run E A
    run_of empty_stream = over
    run_of (from_array values) = run_of_array values
    run_of (emit_stream value) = run_of_emit value
    run_of (concat_stream left right) = followed_by (run_of left) (run_of right)
    run_of (from_pull pull) = run_of_pull pull

    pub run_of_pull : Pull E A → Run E A
    run_of_pull ended = over
    run_of_pull (broken e) = fails e
    run_of_pull (next a tail) = gives a (run_of tail)

  run-uncons_array : (values : List A) → run_of_array values ≡ run_of_pull (uncons_array values)
  unfolding run_of run_of_pull
  run-uncons_array [] = refl
  run-uncons_array (a ∷ []) = refl
  run-uncons_array (a ∷ b ∷ rest) = refl

  run-uncons_emit : (value : Zio E A) → run_of_emit value ≡ run_of_pull (uncons_emit value)
  unfolding run_of run_of_pull
  run-uncons_emit (succeed a) = refl
  run-uncons_emit (suspended_success a) = refl
  run-uncons_emit (suspended_failure e) = refl

  run-or_else :
      (p : Pull E A) (right : ZStream E A) (q : Pull E A)
      → run_of right ≡ run_of_pull q
      → followed_by (run_of_pull p) (run_of right) ≡ run_of_pull (or_else_right p right q)
  unfolding run_of run_of_pull
  run-or_else ended right q e = e
  run-or_else (broken x) right q e = refl
  run-or_else (next a tail) right q e = refl

  -- A pull gives the first element of the run of the stream and a stream for the others, or its
  -- end, or its error.
  pub run-uncons : (s : ZStream E A) → run_of s ≡ run_of_pull (uncons s)
  unfolding run_of run_of_pull uncons
  run-uncons empty_stream = refl
  run-uncons (from_array values) = run-uncons_array values
  run-uncons (emit_stream value) = run-uncons_emit value
  run-uncons (from_pull pull) = refl
  run-uncons (concat_stream left right) =
      ap (λ r. followed_by r (run_of right)) (run-uncons left)
      ∙ run-or_else (uncons left) right (uncons right) (run-uncons right)

  elements-or_else :
      (p : Pull E A) (right : ZStream E A) (q : Pull E A) (n : ℕ)
      → elements_of_pull p ≤ n
      → elements_of_pull q ≤ elements_of right
      → elements_of_pull (or_else_right p right q) ≤ n + elements_of right
  unfolding elements_of elements_of_pull
  elements-or_else ended right q n h k = omega arith
  elements-or_else (broken x) right q n h k = omega arith
  elements-or_else (next a tail) right q n h k = omega arith

  -- A tail has fewer elements.
  pub elements-uncons : (s : ZStream E A) → elements_of_pull (uncons s) ≤ elements_of s
  unfolding elements_of elements_of_pull uncons
  elements-uncons empty_stream = omega arith
  elements-uncons (from_array values) = omega (arith, elements-uncons_array E values)
  elements-uncons (emit_stream (succeed a)) = omega arith
  elements-uncons (emit_stream (suspended_success a)) = omega arith
  elements-uncons (emit_stream (suspended_failure e)) = omega arith
  elements-uncons (from_pull pull) = omega arith
  elements-uncons (concat_stream left right) =
      elements-or_else (uncons left) right (uncons right) (elements_of left) (elements-uncons left)
        (elements-uncons right)
