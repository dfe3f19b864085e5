-- ===== src/Fusion/Runs/Element.antt =====
-- One element in the composed step.
use brass_runtime.Base.{
  ℕ, suc, ◌+◌, ◌-◌, ◌≤◌, ◌<◌, Bool, true, false, List, [], ◌∷◌, length, get_or-set_self,
  get_or-set_ne, length-set, leb, ltb, if◌then◌else◌, ◌≡◌, refl, sym, ap, ◌∙◌, arith,
}
use brass_runtime.Streams.Runs.{Run, over, gives}
use brass_runtime.Streams.Pipes.Agrees.{map_run, filter_run, drop_run}
use brass_runtime.Fusion.{
  PurePipelineMetadata, map_meta, filter_meta, take_meta, drop_meta, FuseResult, emit, skip, halt,
  FuseState, counter, count_up, step_of_emitted, count_counters,
}
use brass_runtime.Fusion.Runs.{
  fused_take, fused_metas, fused_metas-over, steps_from, remaining, remaining-count_up,
}

-- The counters below `i` stay, and none is added.
pub record Keeps (i : ℕ) (before after : FuseState) : Type 0 where
  pub below : (j : ℕ) → j < i → counter j after ≡ counter j before
  pub sized : length after.counters ≡ length before.counters

Keeps-same : (i : ℕ) (st : FuseState) → Keeps i st st
Keeps-same i st = record { below = λ j h. refl; sized = refl }

Keeps-count_up :
    (i : ℕ) (before after : FuseState)
    → Keeps (suc i) (count_up i before) after
    → Keeps i before after
Keeps-count_up i before after k = record {
  below = λ j h.
      k.below j (omega arith)
      ∙ get_or-set_ne before.counters (counter i before + 1) 0 (omega arith);
  sized = k.sized ∙ length-set before.counters i (counter i before + 1);
}

Keeps-less : (i : ℕ) (before after : FuseState) → Keeps (suc i) before after → Keeps i before after
Keeps-less i before after k = record { below = λ j h. k.below j (omega arith); sized = k.sized }

counter-count_up :
    (i : ℕ) (st : FuseState)
    → i < length st.counters
    → counter i (count_up i st) ≡ suc (counter i st)
counter-count_up i st h = omega (arith, get_or-set_self st.counters i (counter i st + 1) 0 h)

none_left : (n c : ℕ) → leb n c ≡ true → n - c ≡ 0
none_left n c e = ground arith

one_less : (n c d : ℕ) → d ≡ suc c → leb n c ≡ false → n - c ≡ suc (n - d)
one_less n c d e f = ground arith

one_dropped : (n c d : ℕ) → d ≡ suc c → ltb c n ≡ true → n - c ≡ suc (n - d)
one_dropped n c d e f = ground arith

all_dropped : (n c : ℕ) → ltb c n ≡ false → n - c ≡ 0
all_dropped n c e = ground arith

module _ (E : Type 0) {A : Type 0} where
  -- What a result of the step says of the run in front of which its element stands: `before` is
  -- what the whole run becomes, and `after` what the rest becomes from the new counters.
  abbrev pub Emits :
      (Run E A → Run E A) → (FuseState → Run E A → Run E A) → A → FuseResult A × FuseState → Type 0
  Emits before after a (emit b, st) =
      (rest : Run E A) → before (gives a rest) ≡ gives b (after st rest)
  Emits before after a (skip, st) = (rest : Run E A) → before (gives a rest) ≡ after st rest
  Emits before after a (halt, st) = (rest : Run E A) → before (gives a rest) ≡ over

  -- A first step that emits, in front of the others.
  Emits-after :
      (before before' : Run E A → Run E A) (after after' : FuseState → Run E A → Run E A) (a b : A)
      (first : Run E A → Run E A) (r : FuseResult A × FuseState)
      → Emits before' after' b r
      → ((rest : Run E A) → before (gives a rest) ≡ before' (gives b (first rest)))
      → ((rest : Run E A) → after r.1 rest ≡ after' r.1 (first rest))
      → Emits before after a r
  Emits-after before before' after after' a b first (emit c, st) h f g =
      λ rest. f rest ∙ h (first rest) ∙ ap (gives c) (sym (g rest))
  Emits-after before before' after after' a b first (skip, st) h f g =
      λ rest. f rest ∙ h (first rest) ∙ sym (g rest)
  Emits-after before before' after after' a b first (halt, st) h f g =
      λ rest. f rest ∙ h (first rest)

  abbrev pub Follows :
      List (PurePipelineMetadata A) → ℕ → FuseState → A → FuseResult A × FuseState → Type 0
  Follows ms i st a r =
      Keeps i st r.1
      × Emits (fused_metas (remaining ms i st)) (λ st'. fused_metas (remaining ms i st')) a r

  filter_Follows :
      (b : Bool) (pred : A → Bool) (ms : List (PurePipelineMetadata A)) (i : ℕ) (st : FuseState)
      (a : A)
      → pred a ≡ b
      → Follows ms i st a (steps_from ms i a st)
      → Follows
          (filter_meta pred ∷ ms)
          i
          st
          a
          (step_of_emitted (steps_from ms i) (if b then emit a else skip, st))
  filter_Follows true pred ms i st a e (k, h) = (
    k,
    Emits-after (fused_metas (remaining (filter_meta pred ∷ ms) i st))
        (fused_metas (remaining ms i st))
        (λ st'. fused_metas (remaining (filter_meta pred ∷ ms) i st'))
        (λ st'. fused_metas (remaining ms i st')) a a (filter_run pred) (steps_from ms i a st) h
        (λ rest.
          ap
            (λ (b : Bool).
              fused_metas (remaining ms i st) (
                let kept_rest = filter_run pred rest in if b then gives a kept_rest else kept_rest))
            e)
        (λ rest. refl),
  )
  filter_Follows false pred ms i st a e (k, h) = (
    Keeps-same i st,
    λ rest.
        ap
          (λ (b : Bool).
            fused_metas (remaining ms i st)
              (let kept_rest = filter_run pred rest in if b then gives a kept_rest else kept_rest))
          e,
  )

  -- `first_left c` is what a step with a counter becomes when the counter is at `c`.
  counted_Follows :
      (ms : List (PurePipelineMetadata A)) (i : ℕ) (st st1 : FuseState) (a : A)
      (left : ℕ → Run E A → Run E A)
      → Keeps i st st1
      → ((st' : FuseState) → Keeps (suc i) st1 st' → Keeps i st st')
      → remaining ms (suc i) st1 ≡ remaining ms (suc i) st
      → ((rest : Run E A)
          → left (counter i st) (gives a rest) ≡ gives a (left (counter i st1) rest))
      → Follows ms (suc i) st1 a (steps_from ms (suc i) a st1)
      → Keeps i st (steps_from ms (suc i) a st1).1
        × Emits
            (λ run. fused_metas (remaining ms (suc i) st) (left (counter i st) run))
            (λ st' run. fused_metas (remaining ms (suc i) st') (left (counter i st') run))
            a
            (steps_from ms (suc i) a st1)
  counted_Follows ms i st st1 a left k k' same moves (kept, h) = (
    k' (steps_from ms (suc i) a st1).1 kept,
    Emits-after (λ run. fused_metas (remaining ms (suc i) st) (left (counter i st) run))
        (fused_metas (remaining ms (suc i) st1))
        (λ st' run. fused_metas (remaining ms (suc i) st') (left (counter i st') run))
        (λ st'. fused_metas (remaining ms (suc i) st')) a a (left (counter i st1))
        (steps_from ms (suc i) a st1) h
        (λ rest.
          ap (fused_metas (remaining ms (suc i) st)) (moves rest)
          ∙ ap (λ r. fused_metas r (gives a (left (counter i st1) rest))) (sym same))
        (λ rest.
          ap (λ c. fused_metas (remaining ms (suc i) (steps_from ms (suc i) a st1).1) (left c rest))
            (kept.below i (omega arith))),
  )

  take_Follows :
      (b : Bool) (n : ℕ) (ms : List (PurePipelineMetadata A)) (i : ℕ) (st : FuseState) (a : A)
      → leb n (counter i st) ≡ b
      → i < length st.counters
      → Follows ms (suc i) (count_up i st) a (steps_from ms (suc i) a (count_up i st))
      → Follows (take_meta n ∷ ms) i st a (
          step_of_emitted
            (steps_from ms (suc i))
            (if b then (halt, st) else (emit a, count_up i st)))
  take_Follows true n ms i st a e h f = (
    Keeps-same i st,
    λ rest.
        ap (λ c. fused_metas (remaining ms (suc i) st) (fused_take c (gives a rest)))
          (none_left n (counter i st) e)
        ∙ fused_metas-over (remaining ms (suc i) st),
  )
  take_Follows false n ms i st a e h f =
      counted_Follows ms i st (count_up i st) a (λ c. fused_take (n - c))
        (Keeps-count_up i st (count_up i st) (Keeps-same (suc i) (count_up i st)))
        (Keeps-count_up i st) (remaining-count_up ms i (suc i) st (omega arith))
        (λ rest.
          ap (λ c. fused_take c (gives a rest))
            (one_less n (counter i st) (counter i (count_up i st)) (counter-count_up i st h) e))
        f

  drop_Follows :
      (b : Bool) (n : ℕ) (ms : List (PurePipelineMetadata A)) (i : ℕ) (st : FuseState) (a : A)
      → ltb (counter i st) n ≡ b
      → i < length st.counters
      → Follows ms (suc i) st a (steps_from ms (suc i) a st)
      → Follows (drop_meta n ∷ ms) i st a (
          step_of_emitted
            (steps_from ms (suc i))
            (if b then (skip, count_up i st) else (emit a, st)))
  drop_Follows true n ms i st a e h f = (
    Keeps-count_up i st (count_up i st) (Keeps-same (suc i) (count_up i st)),
    λ rest.
        ap (λ c. fused_metas (remaining ms (suc i) st) (drop_run c (gives a rest)))
          (one_dropped n (counter i st) (counter i (count_up i st)) (counter-count_up i st h) e)
        ∙ ap (λ r. fused_metas r (drop_run (n - counter i (count_up i st)) rest))
            (sym (remaining-count_up ms i (suc i) st (omega arith))),
  )
  drop_Follows false n ms i st a e h f =
      counted_Follows ms i st st a (λ c. drop_run (n - c)) (Keeps-same i st) (Keeps-less i st) refl
        (λ rest.
          ap (λ c. drop_run c (gives a rest)) (all_dropped n (counter i st) e)
          ∙ ap (λ c. gives a (drop_run c rest)) (sym (all_dropped n (counter i st) e)))
        f

  pub steps_from-Follows :
      (ms : List (PurePipelineMetadata A)) (i : ℕ) (st : FuseState) (a : A)
      → i + count_counters ms ≤ length st.counters
      → Follows ms i st a (steps_from ms i a st)
  steps_from-Follows [] i st a h = (Keeps-same i st, λ rest. refl)
  steps_from-Follows (map_meta fn ∷ ms) i st a h =
      let (k, e) = steps_from-Follows ms i st (fn a) h in
      (
        k,
        Emits-after (fused_metas (remaining (map_meta fn ∷ ms) i st))
            (fused_metas (remaining ms i st))
            (λ st'. fused_metas (remaining (map_meta fn ∷ ms) i st'))
            (λ st'. fused_metas (remaining ms i st')) a (fn a) (map_run fn)
            (steps_from ms i (fn a) st) e (λ rest. refl) (λ rest. refl),
      )
  steps_from-Follows (filter_meta pred ∷ ms) i st a h =
      filter_Follows (pred a) pred ms i st a refl (steps_from-Follows ms i st a h)
  steps_from-Follows (take_meta n ∷ ms) i st a h =
      take_Follows (leb n (counter i st)) n ms i st a refl (omega arith) (
        steps_from-Follows ms (suc i) (count_up i st) a
          (omega (arith, length-set st.counters i (counter i st + 1))))
  steps_from-Follows (drop_meta n ∷ ms) i st a h =
      drop_Follows (ltb (counter i st) n) n ms i st a refl (omega arith)
        (steps_from-Follows ms (suc i) st a (omega arith))
