-- ===== src/Effect/Causes.antt =====
-- The queries of effect.ts on a cause agree with one another.
use mathlib.Core.List.{head?, append-nil, append_assoc}
use brass_runtime.Base.{
  true, false, ◌&&◌, ◌||◌, List, [], ◌∷◌, ◌++◌, Option, none, some, ◌≡◌, refl, ◌∙◌, ap, sym, ◌≢◌,
  arith, is_some,
}
use brass_runtime.Effect.{
  Cause, fail, interrupt, die, and_then, both, collect_failures, failures, or_else, first_failure,
  first_defect, contains_failure, contains_defect, contains_interrupt, is_interrupted_only,
  is_failure_only, unclassified, squash_cause,
}

module _ {E : Type 0} where
  -- The errors that a cause holds, from left to right.
  abbrev pub errors_of : Cause E → List E
  errors_of (fail e) = e ∷ []
  errors_of (and_then l r) = errors_of l ++ errors_of r
  errors_of (both l r) = errors_of l ++ errors_of r
  errors_of (die d) = []
  errors_of interrupt = []

  collect_failures-append :
      (c : Cause E) (out : List E) → collect_failures c out ≡ out ++ errors_of c
  unfolding collect_failures
  collect_failures-append (fail e) out = refl
  collect_failures-append (and_then l r) out =
      rw (collect_failures-append l out, collect_failures-append r (out ++ errors_of l))
        (append_assoc out (errors_of l) (errors_of r))
  collect_failures-append (both l r) out =
      rw (collect_failures-append l out, collect_failures-append r (out ++ errors_of l))
        (append_assoc out (errors_of l) (errors_of r))
  collect_failures-append (die d) out = sym (append-nil out)
  collect_failures-append interrupt out = sym (append-nil out)

  first-head : (xs ys : List E) → head? (xs ++ ys) ≡ or_else (head? xs) (head? ys)
  first-head [] ys = refl
  first-head (x ∷ xs) ys = refl

  first_failure-head : (c : Cause E) → first_failure c ≡ head? (errors_of c)
  unfolding first_failure
  first_failure-head (fail e) = refl
  first_failure-head (and_then l r) =
      rw (first_failure-head l, first_failure-head r) (sym (first-head (errors_of l) (errors_of r)))
  first_failure-head (both l r) =
      rw (first_failure-head l, first_failure-head r) (sym (first-head (errors_of l) (errors_of r)))
  first_failure-head (die d) = refl
  first_failure-head interrupt = refl

  is_some-or_else : (a b : Option E) → is_some (or_else a b) ≡ is_some a || is_some b
  is_some-or_else (some e) b = refl
  is_some-or_else none b = refl

  pub contains_failure-first : (c : Cause E) → contains_failure c ≡ is_some (first_failure c)
  unfolding contains_failure first_failure
  contains_failure-first (fail e) = refl
  contains_failure-first (and_then l r) =
      rw (contains_failure-first l, contains_failure-first r, is_some-or_else)
  contains_failure-first (both l r) =
      rw (contains_failure-first l, contains_failure-first r, is_some-or_else)
  contains_failure-first (die d) = refl
  contains_failure-first interrupt = refl

  contains_defect-first : (c : Cause E) → contains_defect c ≡ is_some (first_defect c)
  unfolding contains_defect first_defect
  contains_defect-first (fail e) = refl
  contains_defect-first (and_then l r) =
      rw (contains_defect-first l, contains_defect-first r, is_some-or_else)
  contains_defect-first (both l r) =
      rw (contains_defect-first l, contains_defect-first r, is_some-or_else)
  contains_defect-first (die d) = refl
  contains_defect-first interrupt = refl

  -- Of every cause: the list of failures lists its errors from left to right, the first failure is
  -- the head of that list, and the test for a failure holds exactly if there is a first one.
  pub failures-agree :
      (c : Cause E)
      → (failures c ≡ errors_of c)
        × (first_failure c ≡ head? (failures c))
        × (contains_failure c ≡ is_some (first_failure c))
  unfolding failures
  failures-agree c = (
    collect_failures-append c [],
    first_failure-head c ∙ ap head? (sym (collect_failures-append c [])),
    contains_failure-first c,
  )

  -- Every cause has a failure, a defect or an interruption in it.
  abbrev Inhabited : Cause E → Type 0
  Inhabited c = contains_failure c || contains_defect c || contains_interrupt c ≡ true

  Cause-Inhabited : (c : Cause E) → Inhabited c
  unfolding contains_failure contains_defect contains_interrupt
  Cause-Inhabited (fail e) = refl
  Cause-Inhabited (and_then l r) = ground (arith, Cause-Inhabited l)
  Cause-Inhabited (both l r) = ground (arith, Cause-Inhabited l)
  Cause-Inhabited (die d) = refl
  Cause-Inhabited interrupt = refl

  -- The last branch of squashCause, for a cause with nothing in it, is never taken.
  pub squash_cause-ne-unclassified : (c : Cause E) → squash_cause c ≢ unclassified
  unfolding squash_cause
  squash_cause-ne-unclassified c =
      ground (arith, Cause-Inhabited c, contains_failure-first c, contains_defect-first c)

  -- A cause that holds failures only has a first failure, so the handler that the fiber looks up
  -- for it has an error to handle.
  pub is_failure_only-first :
      (c : Cause E) → is_failure_only c ≡ true → (e : E) × (first_failure c ≡ some e)
  unfolding is_failure_only
  is_failure_only-first c h = ground (arith, contains_failure-first c)

  -- No cause is both a plain failure and a plain interruption, and a composed cause is a plain
  -- interruption exactly if both its parts are.
  pub is_interrupted_only_lem :
      (l r : Cause E)
      → (is_failure_only l && is_interrupted_only l ≡ false)
        × (is_interrupted_only (and_then l r) ≡ is_interrupted_only l && is_interrupted_only r)
        × (is_interrupted_only (both l r) ≡ is_interrupted_only l && is_interrupted_only r)
  unfolding is_failure_only is_interrupted_only
  is_interrupted_only_lem l r = ground (arith, Cause-Inhabited l, Cause-Inhabited r)
