-- ===== src/Fusion/Runs/Arrays.antt =====
-- The loop over an array, against lists that are mapped, filtered, taken from and dropped from.
use brass_runtime.Base.{
  ℕ, zero, suc, Bool, true, false, List, [], ◌∷◌, ◌++◌, map, if◌then◌else◌, ◌≡◌, refl, sym, ap, ◌∙◌,
}
use brass_runtime.Streams.Runs.{Run, over, fails, gives, run_of_array}
use brass_runtime.Streams.Pipes.Agrees.{map_run, filter_run, drop_run}
use brass_runtime.Fusion.{
  PurePipelineMetadata, map_meta, filter_meta, take_meta, drop_meta, FuseResult, emit, skip, halt,
  FuseState, Step, fuse_metas, push_result, run_fused, run_fused_array,
}
use brass_runtime.Fusion.Runs.{fused_take, fused_meta, fused_metas}
use brass_runtime.Fusion.Runs.Whole.{given, through, through-fused}

module _ {A : Type 0} where
  abbrev pub filter : (A → Bool) → List A → List A
  filter pred [] = []
  filter pred (a ∷ rest) =
      let kept_rest = filter pred rest in if pred a then a ∷ kept_rest else kept_rest

  abbrev pub take : ℕ → List A → List A
  take zero xs = []
  take (suc n) [] = []
  take (suc n) (a ∷ rest) = a ∷ take n rest

  abbrev pub drop : ℕ → List A → List A
  drop zero xs = xs
  drop (suc n) [] = []
  drop (suc n) (a ∷ rest) = drop n rest

  abbrev pub apply_meta : PurePipelineMetadata A → List A → List A
  apply_meta (map_meta fn) xs = map fn xs
  apply_meta (filter_meta pred) xs = filter pred xs
  apply_meta (take_meta n) xs = take n xs
  apply_meta (drop_meta n) xs = drop n xs

  -- One step after the other, each on the whole list.
  abbrev pub apply_metas : List (PurePipelineMetadata A) → List A → List A
  apply_metas [] xs = xs
  apply_metas (meta ∷ metas) xs = apply_metas metas (apply_meta meta xs)

  pub apply_metas-append :
      (ms ns : List (PurePipelineMetadata A)) (xs : List A)
      → apply_metas (ms ++ ns) xs ≡ apply_metas ns (apply_metas ms xs)
  apply_metas-append [] ns xs = refl
  apply_metas-append (m ∷ ms) ns xs = apply_metas-append ms ns (apply_meta m xs)

  -- The elements of a run, with its end forgotten.
  abbrev pub values_of : {E : Type 0} → Run E A → List A
  values_of over = []
  values_of (fails e) = []
  values_of (gives a rest) = a ∷ values_of rest

module _ (E : Type 0) {A : Type 0} where
  values_of-array : (xs : List A) → values_of {E = E} (run_of_array xs) ≡ xs
  values_of-array [] = refl
  values_of-array (x ∷ xs) = ap (λ r. x ∷ r) (values_of-array xs)

  map-array :
      (f : A → A) (xs : List A) → map_run {E = E} f (run_of_array xs) ≡ run_of_array (map f xs)
  map-array f [] = refl
  map-array f (x ∷ xs) = ap (gives (f x)) (map-array f xs)

  filter-test :
      (b : Bool) (x : A) (r : Run E A) (xs : List A)
      → r ≡ run_of_array xs
      → (if b then gives x r else r) ≡ run_of_array (if b then x ∷ xs else xs)
  filter-test true x r xs e = ap (gives x) e
  filter-test false x r xs e = e

  filter-array :
      (p : A → Bool) (xs : List A)
      → filter_run {E = E} p (run_of_array xs) ≡ run_of_array (filter p xs)
  filter-array p [] = refl
  filter-array p (x ∷ xs) =
      filter-test (p x) x (filter_run p (run_of_array xs)) (filter p xs) (filter-array p xs)

  take-array :
      (n : ℕ) (xs : List A) → fused_take {E = E} n (run_of_array xs) ≡ run_of_array (take n xs)
  take-array zero [] = refl
  take-array zero (x ∷ xs) = refl
  take-array (suc n) [] = refl
  take-array (suc n) (x ∷ xs) = ap (gives x) (take-array n xs)

  drop-array :
      (n : ℕ) (xs : List A) → drop_run {E = E} n (run_of_array xs) ≡ run_of_array (drop n xs)
  drop-array zero xs = refl
  drop-array (suc n) [] = refl
  drop-array (suc n) (x ∷ xs) = drop-array n xs

  meta-array :
      (m : PurePipelineMetadata A) (xs : List A)
      → fused_meta {E = E} m (run_of_array xs) ≡ run_of_array (apply_meta m xs)
  meta-array (map_meta f) xs = map-array f xs
  meta-array (filter_meta p) xs = filter-array p xs
  meta-array (take_meta n) xs = take-array n xs
  meta-array (drop_meta n) xs = drop-array n xs

  pub metas-array :
      (ms : List (PurePipelineMetadata A)) (xs : List A)
      → fused_metas {E = E} ms (run_of_array xs) ≡ run_of_array (apply_metas ms xs)
  metas-array [] xs = refl
  metas-array (m ∷ ms) xs = ap (fused_metas ms) (meta-array m xs) ∙ metas-array ms (apply_meta m xs)

  push-given :
      (r : FuseResult A × FuseState) (f : FuseState → List A) (g : FuseState → Run E A)
      → ((st : FuseState) → run_of_array (f st) ≡ g st)
      → run_of_array (push_result r f) ≡ given r g
  push-given (emit b, st) f g h = ap (gives b) (h st)
  push-given (skip, st) f g h = h st
  push-given (halt, st) f g h = refl

  pub run_fused-through :
      (step : Step A) (xs : List A) (st : FuseState)
      → run_of_array {E = E} (run_fused step xs st) ≡ through step st (run_of_array xs)
  unfolding run_fused
  run_fused-through step [] st = refl
  run_fused-through step (x ∷ xs) st =
      push-given (step x st) (run_fused step xs) (λ st'. through step st' (run_of_array xs))
        (λ st'. run_fused-through step xs st')

module _ {A : Type 0} where
  -- One loop over an array, with the composed step, gives what the steps give one after the other
  -- on whole lists.
  pub run_fused_array_lem :
      (m : PurePipelineMetadata A) (ms : List (PurePipelineMetadata A)) (xs : List A)
      → run_fused_array xs (fuse_metas m ms) ≡ apply_metas (m ∷ ms) xs
  unfolding run_fused_array
  run_fused_array_lem m ms xs =
      let fused = fuse_metas m ms in
      let out = run_fused fused.step xs fused.init_state in
      sym (values_of-array Unit out)
      ∙ ap (values_of {E = Unit}) (
          run_fused-through Unit fused.step xs fused.init_state
          ∙ through-fused m ms (run_of_array xs)
          ∙ metas-array Unit (m ∷ ms) xs)
      ∙ values_of-array Unit (apply_metas (m ∷ ms) xs)

  -- To fuse two pipelines into one loop is to run one loop after the other: the counters of the
  -- second do not meet those of the first, and a take in the second ends both.
  pub fuse-concatenates :
      (m n : PurePipelineMetadata A) (ms ns : List (PurePipelineMetadata A)) (xs : List A)
      → run_fused_array xs (fuse_metas m (ms ++ (n ∷ ns)))
        ≡ run_fused_array (run_fused_array xs (fuse_metas m ms)) (fuse_metas n ns)
  fuse-concatenates m n ms ns xs =
      run_fused_array_lem m (ms ++ (n ∷ ns)) xs
      ∙ apply_metas-append (m ∷ ms) (n ∷ ns) xs
      ∙ sym (run_fused_array_lem n ns (apply_metas (m ∷ ms) xs))
      ∙ ap (λ ys. run_fused_array ys (fuse_metas n ns)) (sym (run_fused_array_lem m ms xs))
