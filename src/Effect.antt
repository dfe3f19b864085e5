-- ===== src/Effect.antt =====
-- core/types/effect.ts: why a computation failed (`Cause`) and how it ended (`Exit`).
-- Errors, thrown exceptions and defects are values of one type `E`, since the code casts one to
-- the other (`Cause.fail(e as E)`, `Cause.die(e)`). A list that the code pushes to is threaded
-- through the recursion.
pub mod Causes
use brass_runtime.Base.{
  Bool, true, false, not, ◌&&◌, ◌||◌, List, [], ◌∷◌, ◌++◌, Option, none, some, ◌≡◌, refl, ℕ,
}

pub data Cause (E : Type 0) : Type 0 where
  fail : E → Cause E
  interrupt : Cause E
  die : E → Cause E
  and_then : Cause E → Cause E → Cause E
  both : Cause E → Cause E → Cause E

pub data Exit (E A : Type 0) : Type 0 where
  success : A → Exit E A
  failure : Cause E → Exit E A

-- What `squashCause` picks to throw: an error of the program, else a defect, else the
-- interruption.
pub data Squashed (E : Type 0) : Type 0 where
  of_failure : E → Squashed E
  of_defect : E → Squashed E
  interrupted : Squashed E
  unclassified : Squashed E

module _ {E : Type 0} where
  collect_failures : Cause E → List E → List E
  collect_failures (fail e) out = out ++ (e ∷ [])
  collect_failures (and_then l r) out = collect_failures r (collect_failures l out)
  collect_failures (both l r) out = collect_failures r (collect_failures l out)
  collect_failures (die d) out = out
  collect_failures interrupt out = out

  pub failures : Cause E → List E
  unfolding collect_failures
  failures c = collect_failures c []

  collect_defects : Cause E → List E → List E
  collect_defects (die d) out = out ++ (d ∷ [])
  collect_defects (and_then l r) out = collect_defects r (collect_defects l out)
  collect_defects (both l r) out = collect_defects r (collect_defects l out)
  collect_defects (fail e) out = out
  collect_defects interrupt out = out

  pub defects : Cause E → List E
  unfolding collect_defects
  defects c = collect_defects c []

  -- `left._tag === "Some" ? left : right`
  abbrev pub or_else : Option E → Option E → Option E
  or_else (some e) o = some e
  or_else none o = o

  unfoldable pub first_failure : Cause E → Option E
  first_failure (fail e) = some e
  first_failure (and_then l r) = or_else (first_failure l) (first_failure r)
  first_failure (both l r) = or_else (first_failure l) (first_failure r)
  first_failure (die d) = none
  first_failure interrupt = none

  pub first_defect : Cause E → Option E
  first_defect (die d) = some d
  first_defect (and_then l r) = or_else (first_defect l) (first_defect r)
  first_defect (both l r) = or_else (first_defect l) (first_defect r)
  first_defect (fail e) = none
  first_defect interrupt = none

  unfoldable pub contains_failure : Cause E → Bool
  contains_failure (fail e) = true
  contains_failure (and_then l r) = contains_failure l || contains_failure r
  contains_failure (both l r) = contains_failure l || contains_failure r
  contains_failure (die d) = false
  contains_failure interrupt = false

  unfoldable pub contains_defect : Cause E → Bool
  contains_defect (die d) = true
  contains_defect (and_then l r) = contains_defect l || contains_defect r
  contains_defect (both l r) = contains_defect l || contains_defect r
  contains_defect (fail e) = false
  contains_defect interrupt = false

  unfoldable pub contains_interrupt : Cause E → Bool
  contains_interrupt interrupt = true
  contains_interrupt (and_then l r) = contains_interrupt l || contains_interrupt r
  contains_interrupt (both l r) = contains_interrupt l || contains_interrupt r
  contains_interrupt (fail e) = false
  contains_interrupt (die d) = false

  unfoldable pub is_interrupted_only : Cause E → Bool
  unfolding contains_failure contains_defect contains_interrupt
  is_interrupted_only c =
      contains_interrupt c && not (contains_failure c) && not (contains_defect c)

  unfoldable pub is_failure_only : Cause E → Bool
  unfolding contains_failure contains_defect contains_interrupt
  is_failure_only c = contains_failure c && not (contains_interrupt c) && not (contains_defect c)

  abbrev squash_interrupt : Bool → Squashed E
  squash_interrupt true = interrupted
  squash_interrupt false = unclassified

  abbrev squash_defect : Option E → Bool → Squashed E
  squash_defect (some d) i = of_defect d
  squash_defect none i = squash_interrupt i

  abbrev squash_failure : Option E → Option E → Bool → Squashed E
  squash_failure (some e) d i = of_failure e
  squash_failure none d i = squash_defect d i

  pub squash_cause : Cause E → Squashed E
  unfolding first_failure first_defect contains_interrupt
  squash_cause c = squash_failure (first_failure c) (first_defect c) (contains_interrupt c)
