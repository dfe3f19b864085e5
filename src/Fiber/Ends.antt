-- ===== src/Fiber/Ends.antt =====
-- When a step comes to an end, and which stacks and effects let it. An effect is a well-founded
-- tree here, so this is about programs that do not make effects for ever.
pub mod Rounds
pub mod Frames
pub mod Calls
pub mod Effects
pub mod Steps
use brass_runtime.Base.{
  ℕ, suc, zero, Bool, true, false, List, [], ◌∷◌, Option, some, none, is_some, ◌≡◌, refl, ◌⊎◌, inl,
  inr,
}
use brass_runtime.Effect.{Cause, Exit}
use brass_runtime.Async.{World, Async, Body, returns, throws}
use brass_runtime.Fiber.State.{StepDecision, continue, suspend, done, Frame, Fiber, Host}
use brass_runtime.Fiber.Unwind.{pop_success, pop_cause}
use brass_runtime.Fiber.Machine.{Round, go, stop, Bounce, again, left, exec, after_exec, loop}
use brass_runtime.Fiber.Machine

module _ {H V E : Type 0} (host : Host H V E) where
  -- A decision that does not yield.
  abbrev pub IsOver : StepDecision → Type 0
  IsOver continue = ⊥
  IsOver suspend = Unit
  IsOver done = Unit

  -- With enough budget the loop of `step` comes to an end when it goes on with the switch.
  abbrev pub Switched : Fiber H V E → Type 0
  Switched f = (b : ℕ) × IsOver (after_exec (loop host (suc b) false) (exec host f.current f)).0

  -- With enough budget each loop comes to an end: that of `step`, and that of the trampoline.
  pub record Runs (f : Fiber H V E) : Type 0 where
    pub outer : (b : ℕ) × IsOver (loop host b false f).0
    pub inner : (b : ℕ) × IsOver (loop host b true f).0
    pub switched : Switched f

  abbrev pub IsFine : Fiber H V E → Type 0
  IsFine f = (is_some f.result ≡ true) ⊎ Runs f

  -- A fiber that is not ending.
  abbrev pub IsFresh : Fiber H V E → Type 0
  IsFresh f = (f.finishing ≡ false) × (f.closing ≡ none)

  -- A stack that a value and a cause get through.
  pub record IsGood (s : List (Frame H V E)) : Type 0 where
    pub on_value : (v : V) (f : Fiber H V E) → IsFresh f → IsFine (pop_success s v f)
    pub on_failed : (c : Cause E) (f : Fiber H V E) → IsFresh f → IsFine (pop_cause s c f).0

  -- An effect that ends on every good stack.
  abbrev pub Ends : Async H V E → Type 0
  Ends e =
      (s : List (Frame H V E)) (f : Fiber H V E)
      → IsGood s
      → IsFresh f
      → Runs (record f { current = e; stack = s })

  abbrev pub EndsBody : Body H V E → Type 0
  EndsBody (returns e w) = Ends e
  EndsBody (throws x w) = Unit

  abbrev pub RoundFine : Round H V E → Type 0
  RoundFine (go f) = IsFine f
  RoundFine (stop d f) = IsOver d

  abbrev pub BounceFine : Bounce H V E → Type 0
  BounceFine (again f) = Runs f
  BounceFine (Bounce.ended d f) = IsOver d
  BounceFine (left f) = (is_some f.result ≡ true) ⊎ Switched f
