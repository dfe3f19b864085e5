-- ===== src/Streams/Pipes/Agrees.antt =====
-- What the operators on streams do to the runs of their streams.
use brass_runtime.Base.{
  ℕ, zero, suc, ◌≤◌, ◌<◌, Bool, true, false, Option, none, some, if◌then◌else◌, ◌≡◌, refl, sym, ap,
  ◌∙◌, arith,
}
use brass_runtime.Streams.{
  ZStream, from_pull, Pull, ended, broken, next, uncons, elements_of, elements_of_pull,
}
use brass_runtime.Streams.Runs.{
  Run, over, fails, gives, run_of, run_of_pull, run-uncons, elements-uncons,
}
use brass_runtime.Streams.Pipes.{
  fold_pull, map_loop, map_p, mapped_or, filter_map_next, filter_map_p, filter_next, filter_p,
  take_p, drop_p,
}

module _ {E B : Type 0} where
  abbrev pub kept : Option B → Run E B → Run E B
  kept (some b) rest = gives b rest
  kept none rest = rest

  mapped-kept : (o : Option B) (p : Pull E B) → run_of_pull (mapped_or o p) ≡ kept o (run_of_pull p)
  unfolding run_of
  mapped-kept (some b) p = refl
  mapped-kept none p = refl

module _ {E A B : Type 0} where
  abbrev pub map_run : (A → B) → Run E A → Run E B
  map_run f over = over
  map_run f (fails e) = fails e
  map_run f (gives a rest) = gives (f a) (map_run f rest)

  abbrev pub filter_map_run : (A → Option B) → Run E A → Run E B
  filter_map_run f over = over
  filter_map_run f (fails e) = fails e
  filter_map_run f (gives a rest) = kept (f a) (filter_map_run f rest)

  -- The run with the shorter of the two, whose error is the one that comes first, the left one's
  -- if both come together.
  abbrev pub zip_run : Run E A → Run E B → Run E (A × B)
  zip_run over right = over
  zip_run (fails e) right = fails e
  zip_run (gives a left) over = over
  zip_run (gives a left) (fails e) = fails e
  zip_run (gives a left) (gives b right) = gives (a, b) (zip_run left right)

module _ {E A : Type 0} where
  abbrev pub filter_run : (A → Bool) → Run E A → Run E A
  filter_run pred over = over
  filter_run pred (fails e) = fails e
  filter_run pred (gives a rest) =
      let kept_rest = filter_run pred rest in if pred a then gives a kept_rest else kept_rest

  -- An error behind the elements that are taken does not show.
  abbrev pub take_run : ℕ → Run E A → Run E A
  take_run zero run = over
  take_run (suc n) over = over
  take_run (suc n) (fails e) = fails e
  take_run (suc n) (gives a rest) = gives a (take_run n rest)

  abbrev pub drop_run : ℕ → Run E A → Run E A
  drop_run zero run = run
  drop_run (suc n) over = over
  drop_run (suc n) (fails e) = fails e
  drop_run (suc n) (gives a rest) = drop_run n rest

module _ {E A B : Type 0} where
  fold_pull-run :
      (p : Pull E A) (n : ℕ) (k : A → ZStream E A → Pull E B) (g : Run E A → Run E B)
      → elements_of_pull p ≤ n
      → g over ≡ over
      → ((e : E) → g (fails e) ≡ fails e)
      → ((a : A) (tail : ZStream E A)
          → elements_of tail < n
          → run_of_pull (k a tail) ≡ g (gives a (run_of tail)))
      → run_of_pull (fold_pull p k) ≡ g (run_of_pull p)
  unfolding run_of elements_of
  fold_pull-run ended n k g h o f t = sym o
  fold_pull-run (broken e) n k g h o f t = sym (f e)
  fold_pull-run (next a tail) n k g h o f t = t a tail (omega arith)

  -- A pull of the source, and a function of its outcome.
  pub pulled-run :
      (s : ZStream E A) (k : A → ZStream E A → Pull E B) (g : Run E A → Run E B)
      → g over ≡ over
      → ((e : E) → g (fails e) ≡ fails e)
      → ((a : A) (tail : ZStream E A)
          → elements_of tail < elements_of s
          → run_of_pull (k a tail) ≡ g (gives a (run_of tail)))
      → run_of_pull (fold_pull (uncons s) k) ≡ g (run_of s)
  pulled-run s k g o f t =
      fold_pull-run (uncons s) (elements_of s) k g (elements-uncons s) o f t
      ∙ ap g (sym (run-uncons s))

  map_loop-run :
      (fuel : ℕ) (f : A → B) (s : ZStream E A)
      → elements_of s < fuel
      → run_of (map_loop fuel f s) ≡ map_run f (run_of s)
  unfolding map_loop run_of
  map_loop-run zero f s h = absurd (omega arith)
  map_loop-run (suc fuel) f s h =
      pulled-run s (λ a tail. next (f a) (map_loop fuel f tail)) (map_run f) refl (λ e. refl)
        (λ a tail l. ap (gives (f a)) (map_loop-run fuel f tail (omega arith)))

  -- mapP applies its function to each element, and keeps the end or the error.
  pub map_p-run : (f : A → B) (s : ZStream E A) → run_of (map_p f s) ≡ map_run f (run_of s)
  unfolding map_p
  map_p-run f s = map_loop-run (suc (elements_of s)) f s (omega arith)

  filter_map_next-run :
      (fuel : ℕ) (f : A → Option B) (s : ZStream E A)
      → elements_of s < fuel
      → run_of_pull (filter_map_next fuel f s) ≡ filter_map_run f (run_of s)
  unfolding filter_map_next
  filter_map_next-run zero f s h = absurd (omega arith)
  filter_map_next-run (suc fuel) f s h =
      pulled-run s (λ a tail. mapped_or (f a) (filter_map_next fuel f tail)) (filter_map_run f) refl
        (λ e. refl)
        (λ a tail l.
          mapped-kept (f a) (filter_map_next fuel f tail)
          ∙ ap (kept (f a)) (filter_map_next-run fuel f tail (omega arith)))

  pub filter_map_p-run :
      (f : A → Option B) (s : ZStream E A) → run_of (filter_map_p f s) ≡ filter_map_run f (run_of s)
  unfolding filter_map_p run_of
  filter_map_p-run f s = filter_map_next-run (suc (elements_of s)) f s (omega arith)

module _ {E A : Type 0} where
  filter-if :
      (b : Bool) (a : A) (p : Pull E A) (r : Run E A)
      → run_of_pull p ≡ r
      → run_of_pull (if b then next a (from_pull p) else p) ≡ (if b then gives a r else r)
  unfolding run_of
  filter-if true a p r e = ap (gives a) e
  filter-if false a p r e = e

  filter_next-run :
      (fuel : ℕ) (pred : A → Bool) (s : ZStream E A)
      → elements_of s < fuel
      → run_of_pull (filter_next fuel pred s) ≡ filter_run pred (run_of s)
  unfolding filter_next
  filter_next-run zero pred s h = absurd (omega arith)
  filter_next-run (suc fuel) pred s h =
      pulled-run s
        (λ a tail.
          let rest = filter_next fuel pred tail in if pred a then next a (from_pull rest) else rest)
        (filter_run pred) refl (λ e. refl)
        (λ a tail l.
          filter-if (pred a) a (filter_next fuel pred tail) (filter_run pred (run_of tail))
            (filter_next-run fuel pred tail (omega arith)))

  pub filter_p-run :
      (pred : A → Bool) (s : ZStream E A) → run_of (filter_p pred s) ≡ filter_run pred (run_of s)
  unfolding filter_p run_of
  filter_p-run pred s = filter_next-run (suc (elements_of s)) pred s (omega arith)

  pub take_p-run : (n : ℕ) (s : ZStream E A) → run_of (take_p n s) ≡ take_run n (run_of s)
  unfolding take_p run_of
  take_p-run zero s = refl
  take_p-run (suc n) s =
      pulled-run s (λ a tail. next a (take_p n tail)) (take_run (suc n)) refl (λ e. refl)
        (λ a tail _. ap (gives a) (take_p-run n tail))

  pub drop_p-run : (n : ℕ) (s : ZStream E A) → run_of (drop_p n s) ≡ drop_run n (run_of s)
  unfolding drop_p run_of
  drop_p-run zero s = refl
  drop_p-run (suc n) s =
      pulled-run s (λ a tail. uncons (drop_p n tail)) (drop_run (suc n)) refl (λ e. refl)
        (λ a tail _. sym (run-uncons (drop_p n tail)) ∙ drop_p-run n tail)
