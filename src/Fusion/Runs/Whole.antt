-- ===== src/Fusion/Runs/Whole.antt =====
-- A whole run through the fused step, and the loop over an array.
use brass_runtime.Base.{
  ℕ, zero, suc, ◌+◌, ◌≤◌, List, [], ◌∷◌, length, get_or, replicate, length-replicate, ◌≡◌, refl,
  sym, ap, ◌∙◌, arith,
}
use brass_runtime.Streams.Runs.{Run, over, fails, gives}
use brass_runtime.Fusion.{
  PurePipelineMetadata, map_meta, filter_meta, take_meta, drop_meta, FuseResult, emit, skip, halt,
  FuseState, Step, count_counters, counted, build_step_from_metadata, fuse_metas,
}
use brass_runtime.Fusion.Runs.{
  fused_metas, fused_metas-over, steps_from, remaining, compose_rest-steps,
}
use brass_runtime.Fusion.Runs.Element.{Follows, steps_from-Follows}

module _ {E A : Type 0} where
  abbrev pub given : FuseResult A × FuseState → (FuseState → Run E A) → Run E A
  given (emit b, st) rest = gives b (rest st)
  given (skip, st) rest = rest st
  given (halt, st) rest = over

  -- A run whose elements go through a step one by one.
  abbrev pub through : Step A → FuseState → Run E A → Run E A
  through step st over = over
  through step st (fails e) = fails e
  through step st (gives a rest) = given (step a st) (λ st'. through step st' rest)

  pub fused_metas-fails :
      (ms : List (PurePipelineMetadata A)) (e : E) → fused_metas ms (fails e) ≡ fails e
  fused_metas-fails [] e = refl
  fused_metas-fails (map_meta f ∷ ms) e = fused_metas-fails ms e
  fused_metas-fails (filter_meta p ∷ ms) e = fused_metas-fails ms e
  fused_metas-fails (take_meta n ∷ ms) e = fused_metas-fails ms e
  fused_metas-fails (drop_meta zero ∷ ms) e = fused_metas-fails ms e
  fused_metas-fails (drop_meta (suc n) ∷ ms) e = fused_metas-fails ms e

  given-Follows :
      (ms : List (PurePipelineMetadata A)) (i : ℕ) (st : FuseState) (a : A) (rest : Run E A)
      (go : FuseState → Run E A) (r : FuseResult A × FuseState)
      → Follows E ms i st a r
      → go r.1 ≡ fused_metas (remaining ms i r.1) rest
      → given r go ≡ fused_metas (remaining ms i st) (gives a rest)
  given-Follows ms i st a rest go (emit b, st') (k, h) e = ap (gives b) e ∙ sym (h rest)
  given-Follows ms i st a rest go (skip, st') (k, h) e = e ∙ sym (h rest)
  given-Follows ms i st a rest go (halt, st') (k, h) e = sym (h rest)

  through-steps :
      (ms : List (PurePipelineMetadata A)) (i : ℕ) (st : FuseState) (run : Run E A)
      → i + count_counters ms ≤ length st.counters
      → through (steps_from ms i) st run ≡ fused_metas (remaining ms i st) run
  through-steps ms i st over h = sym (fused_metas-over (remaining ms i st))
  through-steps ms i st (fails e) h = sym (fused_metas-fails (remaining ms i st) e)
  through-steps ms i st (gives a rest) h =
      let f = steps_from-Follows E ms i st a h in
      let st' = (steps_from ms i a st).1 in
      given-Follows ms i st a rest (λ st'. through (steps_from ms i) st' rest)
        (steps_from ms i a st) f (through-steps ms i st' rest (omega (arith, f.0.sized)))

  given-same :
      (r : FuseResult A × FuseState) (f g : FuseState → Run E A)
      → ((st : FuseState) → f st ≡ g st)
      → given r f ≡ given r g
  given-same (emit b, st) f g h = ap (gives b) (h st)
  given-same (skip, st) f g h = h st
  given-same (halt, st) f g h = refl

  through-same :
      (s t : Step A) (st : FuseState) (run : Run E A)
      → ((a : A) (st : FuseState) → s a st ≡ t a st)
      → through s st run ≡ through t st run
  through-same s t st over h = refl
  through-same s t st (fails e) h = refl
  through-same s t st (gives a rest) h =
      ap (λ r. given r (λ st'. through s st' rest)) (h a st)
      ∙ given-same (t a st) (λ st'. through s st' rest) (λ st'. through t st' rest)
          (λ st'. through-same s t st' rest h)

get_or-replicate : (n i : ℕ) → get_or {A = ℕ} (replicate n 0) i 0 ≡ 0
get_or-replicate zero i = refl
get_or-replicate (suc n) zero = refl
get_or-replicate (suc n) (suc i) = get_or-replicate n i

module _ {A : Type 0} where
  remaining-initial :
      (ms : List (PurePipelineMetadata A)) (i n : ℕ)
      → remaining ms i (record { counters = replicate n 0 }) ≡ ms
  remaining-initial [] i n = refl
  remaining-initial (map_meta f ∷ ms) i n = ap (λ r. map_meta f ∷ r) (remaining-initial ms i n)
  remaining-initial (filter_meta p ∷ ms) i n =
      ap (λ r. filter_meta p ∷ r) (remaining-initial ms i n)
  remaining-initial (take_meta k ∷ ms) i n =
      ap (λ c. take_meta c ∷ remaining ms (suc i) (record { counters = replicate n 0 }))
        (omega (arith, get_or-replicate n i))
      ∙ ap (λ r. take_meta k ∷ r) (remaining-initial ms (suc i) n)
  remaining-initial (drop_meta k ∷ ms) i n =
      ap (λ c. drop_meta c ∷ remaining ms (suc i) (record { counters = replicate n 0 }))
        (omega (arith, get_or-replicate n i))
      ∙ ap (λ r. drop_meta k ∷ r) (remaining-initial ms (suc i) n)

module _ {E A : Type 0} where
  -- A run through the fused step from its first state.
  pub through-fused :
      (m : PurePipelineMetadata A) (ms : List (PurePipelineMetadata A)) (run : Run E A)
      → through (fuse_metas m ms).step (fuse_metas m ms).init_state run ≡ fused_metas (m ∷ ms) run
  through-fused m ms run =
      let st = (fuse_metas m ms).init_state in
      through-same (fuse_metas m ms).step (steps_from (m ∷ ms) 0) st run
        (compose_rest-steps ms (counted m 0) (build_step_from_metadata m 0))
      ∙ through-steps (m ∷ ms) 0 st run
          (omega (arith, length-replicate {A = ℕ} (count_counters (m ∷ ms)) 0))
      ∙ ap (λ ms. fused_metas ms run) (remaining-initial (m ∷ ms) 0 (count_counters (m ∷ ms)))
