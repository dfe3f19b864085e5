-- ===== src/Fiber/Ends/Effects.antt =====
-- The end of a step: each constructor of an effect, given the effects that it is made of.
use brass_runtime.Base.{ℕ, suc, List, ◌∷◌, Option, refl, inr, either_branch}
use brass_runtime.Effect.{Cause}
use brass_runtime.Async.{
  World, Call, Registered, Async, Body, succeed, fail, sync, async, flat_map, fold, fork,
  interruptibility, interruptibility_mask, interruptibility_restore, fiber_ref_locally, Mode,
}
use brass_runtime.Fiber.State.{
  Frame, success_cont, fold_cont, interruptibility_cont, fiber_ref_cont, Fiber, Host, ref_get,
  ref_set, with_refs, entered,
}
use brass_runtime.Fiber.Unwind.{on_success}
use brass_runtime.Fiber.Machine.{
  Bounce, exec, trampoline_round, bounce_on, bounce_sync, descend, bounce_from,
}
use brass_runtime.Fiber.Ends.{RoundFine, BounceFine, Switched, IsFresh, IsGood, Ends, EndsBody}
use brass_runtime.Fiber.Ends.Rounds.{Runs-exec, Runs-bounce}
use brass_runtime.Fiber.Ends.Frames.{
  success_cont-IsGood, fold_cont-IsGood, interruptibility_cont-IsGood, fiber_ref_cont-IsGood,
}
use brass_runtime.Fiber.Ends.Calls.{
  EndsAll, bounce_on-BounceFine, bounce_sync-BounceFine, bounce_registered-BounceFine,
  run_sync-IsFine, run_mask-IsFine, settle_registered-RoundFine,
}

module _ {H V E : Type 0} (host : Host H V E) where
  -- A round of the trampoline on a FlatMap over the effect.
  abbrev bounced : Async H V E × List (Frame H V E) → Fiber H V E → Bounce H V E
  bounced (e, s) f = bounce_from e (record f { stack = s })

  abbrev Bounces : Async H V E → Type 0
  Bounces e =
      (k : V → World H V → Body H V E)
      → EndsAll host k
      → (s : List (Frame H V E)) (f : Fiber H V E) → IsGood host s
      → IsFresh host f
      → BounceFine host (bounced (descend (flat_map e k) s) f)

  abbrev pub Deep : Async H V E → Type 0
  Deep e = Ends host e × Bounces e

  -- What the switch finds when the trampoline has pushed the continuation of a FlatMap.
  left_to_switch :
      (e : Async H V E)
      → Ends host e
      → (k : V → World H V → Body H V E) → EndsAll host k
      → (s : List (Frame H V E)) (f : Fiber H V E) → IsGood host s
      → IsFresh host f
      → Switched host (record f { current = e; stack = success_cont k ∷ s })
  left_to_switch e h k ks s f good fresh =
      (h (success_cont k ∷ s) f (success_cont-IsGood host k ks s good) fresh).switched

  abbrev at : Async H V E → List (Frame H V E) → Fiber H V E → Fiber H V E
  at e s f = record f { current = e; stack = s }

  pub succeed-Deep : (v : V) → Deep (succeed v)
  unfolding trampoline_round bounce_from descend bounce_on exec
  succeed-Deep v = (
    λ s f good fresh.
        Runs-exec host (at (succeed v) s f) refl (good.on_value v (at (succeed v) s f) fresh)
          (λ t. inr t),
    λ k ks s f good fresh. bounce_on-BounceFine host (k v f.world) (ks v f.world) s f good fresh,
  )

  pub fail-Deep : (e : E) → Deep (fail e)
  unfolding trampoline_round bounce_from descend exec
  fail-Deep e =
      let ends : Ends host (fail e) = λ s f good fresh.
        Runs-exec host (at (fail e) s f) refl
          (good.on_failed (Cause.fail e) (at (fail e) s f) fresh) (λ t. inr t) in
      (ends, λ k ks s f good fresh. inr (left_to_switch (fail e) ends k ks s f good fresh))

  pub sync-Deep : (thunk : World H V → Call H V E) → Deep (sync thunk)
  unfolding trampoline_round bounce_from descend bounce_sync exec
  sync-Deep thunk = (
    λ s f good fresh.
        Runs-exec host (at (sync thunk) s f) refl
          (run_sync-IsFine host (thunk f.world) s (at (sync thunk) s f) good fresh) (λ t. inr t),
    λ k ks s f good fresh. bounce_sync-BounceFine host k ks (thunk f.world) s f good fresh,
  )

  pub async-Deep : (register : World H V → Registered H V E) → Deep (async register)
  unfolding trampoline_round bounce_from descend exec
  async-Deep register = (
    λ s f good fresh.
        Runs-exec host (at (async register) s f) refl
          (either_branch (RoundFine host) f.finishing (λ t. absurd (cc))
            (λ _.
              settle_registered-RoundFine host (register f.world).resolved (register f.world) s
                (at (async register) s f) good fresh))
          (λ t. inr t),
    λ k ks s f good fresh.
        either_branch (BounceFine host) f.finishing (λ t. absurd (cc))
          (λ _.
            bounce_registered-BounceFine host k ks (register f.world).resolved (register f.world) s
              f good fresh),
  )

  pub flat_map-Deep :
      (a : Async H V E) (k : V → World H V → Body H V E)
      → Deep a
      → EndsAll host k
      → Deep (flat_map a k)
  unfolding trampoline_round bounce_from descend exec
  flat_map-Deep a k (ends, bounces) ks = (
    λ s f good fresh.
        Runs-bounce host (at (flat_map a k) s f) refl
          (inr (ends (success_cont k ∷ s) f (success_cont-IsGood host k ks s good) fresh))
          (bounces k ks s (at (flat_map a k) s f) good fresh),
    λ j js s f good fresh.
        bounces k ks (success_cont j ∷ s) f (success_cont-IsGood host j js s good) fresh,
  )

  pub fold-Deep :
      (a : Async H V E) (h : E → World H V → Body H V E) (k : V → World H V → Body H V E)
      → Ends host a
      → ((e : E) (w : World H V) → EndsBody host (h e w))
      → EndsAll host k
      → Deep (fold a h k)
  unfolding trampoline_round bounce_from descend exec
  fold-Deep a h k ends hs ks = (
    λ s f good fresh.
        Runs-exec host (at (fold a h k) s f) refl
          (inr (ends (fold_cont h k ∷ s) f (fold_cont-IsGood host h k hs ks s good) fresh))
          (λ t. inr t),
    λ j js s f good fresh.
        ends (fold_cont h k ∷ success_cont j ∷ s) f
          (fold_cont-IsGood host h k hs ks (success_cont j ∷ s)
            (success_cont-IsGood host j js s good))
          fresh,
  )

  -- The effects that the trampoline leaves to the switch.
  pub fork-Deep : (e : Async H V E) (scope : Option ℕ) → Deep (fork e scope)
  unfolding trampoline_round bounce_from descend on_success exec
  fork-Deep e scope =
      let ends : Ends host (fork e scope) = λ s f good fresh.
        Runs-exec host (at (fork e scope) s f) refl
          (good.on_value (host.fork e scope f.world).0
            (record f { current = fork e scope; stack = s; world = (host.fork e scope f.world).1 })
            fresh)
          (λ t. inr t) in
      (ends, λ k ks s f good fresh. inr (left_to_switch (fork e scope) ends k ks s f good fresh))

  pub interruptibility-Deep :
      (m : Mode) (e : Async H V E) → Ends host e → Deep (interruptibility m e)
  unfolding trampoline_round bounce_from descend exec
  interruptibility-Deep m e h =
      let ends : Ends host (interruptibility m e) = λ s f good fresh.
        Runs-exec host (at (interruptibility m e) s f) refl
          (inr (
            h (interruptibility_cont f.depth ∷ s) (record f { depth = entered m f.depth })
              (interruptibility_cont-IsGood host f.depth s good) fresh))
          (λ t. inr t) in
      (
        ends,
        λ k ks s f good fresh. inr (left_to_switch (interruptibility m e) ends k ks s f good fresh),
      )

  pub mask-Deep :
      (body : ℕ → World H V → Body H V E)
      → ((d : ℕ) (w : World H V) → EndsBody host (body d w))
      → Deep (interruptibility_mask body)
  unfolding trampoline_round bounce_from descend exec
  mask-Deep body h =
      let ends : Ends host (interruptibility_mask body) = λ s f good fresh.
        Runs-exec host (at (interruptibility_mask body) s f) refl
          (run_mask-IsFine host (body f.depth f.world) (h f.depth f.world)
            (interruptibility_cont f.depth ∷ s)
            (record f { current = interruptibility_mask body; depth = suc f.depth })
            (interruptibility_cont-IsGood host f.depth s good) fresh)
          (λ t. inr t) in
      (
        ends,
        λ k ks s f good fresh.
            inr (left_to_switch (interruptibility_mask body) ends k ks s f good fresh),
      )

  pub restore-Deep : (d : ℕ) (e : Async H V E) → Ends host e → Deep (interruptibility_restore d e)
  unfolding trampoline_round bounce_from descend exec
  restore-Deep d e h =
      let ends : Ends host (interruptibility_restore d e) = λ s f good fresh.
        Runs-exec host (at (interruptibility_restore d e) s f) refl
          (inr (
            h (interruptibility_cont f.depth ∷ s) (record f { depth = d })
              (interruptibility_cont-IsGood host f.depth s good) fresh))
          (λ t. inr t) in
      (
        ends,
        λ k ks s f good fresh.
            inr (left_to_switch (interruptibility_restore d e) ends k ks s f good fresh),
      )

  pub locally-Deep :
      (n : ℕ) (v : V) (e : Async H V E) → Ends host e → Deep (fiber_ref_locally n v e)
  unfolding trampoline_round bounce_from descend exec
  locally-Deep n v e h =
      let ends : Ends host (fiber_ref_locally n v e) = λ s f good fresh.
        Runs-exec host (at (fiber_ref_locally n v e) s f) refl
          (inr (
            h (fiber_ref_cont n (ref_get n f.world.refs) ∷ s)
              (record f { world = with_refs f.world (ref_set n v f.world.refs) })
              (fiber_ref_cont-IsGood host n (ref_get n f.world.refs) s good) fresh))
          (λ t. inr t) in
      (
        ends,
        λ k ks s f good fresh.
            inr (left_to_switch (fiber_ref_locally n v e) ends k ks s f good fresh),
      )
