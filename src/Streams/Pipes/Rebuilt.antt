-- ===== src/Streams/Pipes/Rebuilt.antt =====
-- `mapStream`, which rebuilds a stream node by node, and `zip`, which pulls two.
use brass_runtime.Base.{ℕ, zero, suc, ◌<◌, List, [], ◌∷◌, map, ◌≡◌, refl, sym, ap, ◌∙◌, arith}
use brass_runtime.Streams.{
  Zio, succeed, suspended_success, suspended_failure, ZStream, empty_stream, from_array,
  emit_stream, concat_stream, from_pull, Pull, ended, broken, next, uncons, elements_of,
}
use brass_runtime.Streams.Runs.{
  Run, over, fails, gives, run_of, run_of_pull, run_of_array, run_of_emit, followed_by,
}
use brass_runtime.Streams.Pipes.{fold_pull, map_p, map_zio, map_stream, map_pull, zip_loop, zip}
use brass_runtime.Streams.Pipes.Agrees.{map_run, map_p-run, zip_run, pulled-run}

module _ {E A B : Type 0} where
  map-array :
      (f : A → B) (xs : List A) → run_of_array {E = E} (map f xs) ≡ map_run f (run_of_array xs)
  map-array f [] = refl
  map-array f (x ∷ xs) = ap (gives (f x)) (map-array f xs)

  map-followed_by :
      (f : A → B) (l r : Run E A)
      → followed_by (map_run f l) (map_run f r) ≡ map_run f (followed_by l r)
  map-followed_by f over r = refl
  map-followed_by f (fails e) r = refl
  map-followed_by f (gives a l) r = ap (gives (f a)) (map-followed_by f l r)

  map-emit : (f : A → B) (v : Zio E A) → run_of_emit (map_zio f v) ≡ map_run f (run_of_emit v)
  map-emit f (succeed a) = refl
  map-emit f (suspended_success a) = refl
  map-emit f (suspended_failure e) = refl

  mutual
    unfolding map_stream run_of

    map_stream_lem : (f : A → B) (s : ZStream E A) → run_of (map_stream f s) ≡ map_run f (run_of s)
    map_stream_lem f empty_stream = refl
    map_stream_lem f (from_array values) = map-array f values
    map_stream_lem f (emit_stream value) = map-emit f value
    map_stream_lem f (from_pull pull) = map_pull_lem f pull
    map_stream_lem f (concat_stream left right) =
        ap (λ l. followed_by l (run_of (map_stream f right))) (map_stream_lem f left)
        ∙ ap (followed_by (map_run f (run_of left))) (map_stream_lem f right)
        ∙ map-followed_by f (run_of left) (run_of right)

    map_pull_lem :
        (f : A → B) (p : Pull E A) → run_of_pull (map_pull f p) ≡ map_run f (run_of_pull p)
    map_pull_lem f ended = refl
    map_pull_lem f (broken e) = refl
    map_pull_lem f (next a tail) = ap (gives (f a)) (map_stream_lem f tail)

  -- mapStream, which rebuilds the stream node by node, gives what mapP gives, which pulls it.
  pub map_stream-map_p :
      (f : A → B) (s : ZStream E A) → run_of (map_stream f s) ≡ run_of (map_p f s)
  map_stream-map_p f s = map_stream_lem f s ∙ sym (map_p-run f s)

module _ {E A B : Type 0} where
  zip_loop-run :
      (fuel : ℕ) (l : ZStream E A) (r : ZStream E B)
      → elements_of l < fuel
      → run_of (zip_loop fuel l r) ≡ zip_run (run_of l) (run_of r)
  unfolding zip_loop run_of
  zip_loop-run zero l r h = absurd (omega arith)
  zip_loop-run (suc fuel) l r h =
      pulled-run l
        (λ a left. fold_pull (uncons r) (λ b right. next (a, b) (zip_loop fuel left right)))
        (λ run. zip_run run (run_of r)) refl (λ e. refl)
        (λ a left less.
          pulled-run r (λ b right. next (a, b) (zip_loop fuel left right))
            (zip_run (gives a (run_of left))) refl (λ e. refl)
            (λ b right _. ap (gives (a, b)) (zip_loop-run fuel left right (omega arith))))

  -- zip pairs the elements of its streams, and ends with the one that ends first; an error of the
  -- right stream that has one more element than the left one does not show.
  pub zip-run :
      (l : ZStream E A) (r : ZStream E B) → run_of (zip l r) ≡ zip_run (run_of l) (run_of r)
  unfolding zip
  zip-run l r = zip_loop-run (suc (elements_of l)) l r (omega arith)
