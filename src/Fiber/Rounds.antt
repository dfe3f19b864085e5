-- ===== src/Fiber/Rounds.antt =====
-- A round of the machine and the reference: what a fiber reaches when a value or a cause runs
-- down its stack. The section's parameters are what a fiber keeps until it ends.
pub mod Switch
pub mod Bounces
use mathlib.Core.List.{reverse}
use brass_runtime.Base.{
  ℕ, suc, Bool, true, false, ◌&&◌, List, [], ◌∷◌, ◌++◌, Option, none, some, ◌==◌, is_some,
  if◌then◌else◌, ◌≡◌, refl, sym, ap, ◌∙◌, ◌⊎◌, inl, inr, arith, subst, Bool-cases, Option-cases,
}
use brass_runtime.Effect.{
  Cause, Exit, success, failure, die, interrupt, is_failure_only, first_failure,
}
use brass_runtime.Async.{World, Async, Body, returns, throws}
use brass_runtime.Fiber.State.{
  Frame, success_cont, fold_cont, interruptibility_cont, fiber_ref_cont, Finalizer, Fiber, Host,
  drain, run_joiners, finish, notify, restore_fiber_ref, should_interrupt_now, restored_ref,
}
use brass_runtime.Fiber.Unwind.{continue_with, pop_success, leaving, handled_by, pop_cause}
use brass_runtime.Fiber.Calm.{Steady, Calm, CalmBody, CalmHandler, CalmStack, IsCalm}
use brass_runtime.Fiber.Eval.{
  Context, Outcome, ended, aborted, waiting, eval, eval_body, eval_handler, unwind, through,
  Verdict, exits, conclude, context, at_world,
}

module _ {H V E : Type 0} (host : Host H V E) (i : Bool) where
  -- The rest of the stack does not change an outcome that bypasses the handlers.
  pub unwind-aborted :
      (s : List (Frame H V E)) (e : Cause E) (c : Context H V)
      → unwind host i s (aborted e c) ≡ aborted e c
  unwind-aborted [] e c = refl
  unwind-aborted (success_cont k ∷ s) e c = unwind-aborted s e c
  unwind-aborted (fold_cont h k ∷ s) e c = unwind-aborted s e c
  unwind-aborted (interruptibility_cont d ∷ s) e c = unwind-aborted s e c
  unwind-aborted (fiber_ref_cont k p ∷ s) e c = unwind-aborted s e c

module _ {H V E : Type 0} (host : Host H V E) (i : Bool) (fins : List (Finalizer H V E))
    (js : List (Exit E V → World H V → World H V)) where
  -- A fiber that has not ended, with its finalizers and joiners.
  pub record Lives (f : Fiber H V E) : Type 0 where
    pub no_result : f.result ≡ none
    pub no_closing : f.closing ≡ none
    pub not_finishing : f.finishing ≡ false
    pub not_drained : f.drained ≡ false
    pub same_interrupted : f.interrupted ≡ i
    pub same_finalizers : f.finalizers ≡ fins
    pub same_joiners : f.joiners ≡ js

  abbrev pub comes_to : Fiber H V E → Verdict H V E
  comes_to f = conclude i (unwind host i f.stack (eval host i f.current (context f)))

  -- The fiber has ended with an exit; the finalizers have run on it, the latest first, and then
  -- the joiners, in the order in which they joined.
  abbrev pub HasEnded : Verdict H V E → Fiber H V E → Type 0
  HasEnded t g =
      (x : Exit E V) × (w : World H V) × (s : Bool) × (t ≡ exits x w)
      × (g.result ≡ some x)
      × (g.world ≡ run_joiners js x (drain (reverse fins) x s w).0)

  abbrev pub Reaches : Verdict H V E → Fiber H V E → Type 0
  Reaches t g = (Lives g × (comes_to g ≡ t) × IsCalm g) ⊎ HasEnded t g

  abbrev pub ReachesSteady : Verdict H V E → Fiber H V E → Type 0
  ReachesSteady t g = (Lives g × (comes_to g ≡ t) × IsCalm g × Steady g.current) ⊎ HasEnded t g

  pub notify-HasEnded :
      (x : Exit E V) (f : Fiber H V E) {t : Verdict H V E}
      → Lives f
      → t ≡ exits x f.world
      → HasEnded t (notify x f)
  unfolding notify
  notify-HasEnded x f l e =
      (x, f.world, f.sync_resolved, e, ground (arith, l.no_result), ground (arith, l.no_result))

  pub continue_with-Reaches :
      (b : Body H V E) (f : Fiber H V E)
      → Lives f
      → CalmBody b
      → CalmStack f.stack
      → Reaches
          (conclude i (unwind host i f.stack (eval_body host i b (context f))))
          (continue_with b f)
  unfolding continue_with eval Calm
  continue_with-Reaches (returns e w) f l q m = inl (ground (arith, l.no_result), refl, (q, m))
  continue_with-Reaches (throws x w) f l q m = inr (
      notify-HasEnded (failure (die x)) (record f { world = w }) (ground (arith, l.no_result))
        (ap (conclude i) (unwind-aborted host i f.stack (die x) (at_world w (context f)))))

  now_at : (f : Fiber H V E) (d : ℕ) → Lives f → (f.interrupted && (d == 0)) ≡ (i && (d == 0))
  now_at f d l = ap (λ b. b && (d == 0)) l.same_interrupted

  pub pop_success-Reaches :
      (s : List (Frame H V E)) (v : V) (f : Fiber H V E)
      → Lives f
      → CalmStack s
      → Reaches (conclude i (unwind host i s (ended (success v) (context f)))) (pop_success s v f)
  unfolding pop_success
  pop_success-Reaches [] v f l m = elim (Bool-cases (i && (f.depth == 0))) [
    | inl now ↦
        rw (now_at f f.depth l, now)
          (inr (
            notify-HasEnded (failure interrupt) (record f { stack = [] })
              (ground (arith, l.no_result)) refl))
    | inr later ↦
        rw (now_at f f.depth l, later)
          (inr (
            notify-HasEnded (success v) (record f { stack = [] }) (ground (arith, l.no_result))
              refl))
  ]
  pop_success-Reaches (interruptibility_cont d ∷ s) v f l m = elim (Bool-cases (i && (d == 0))) [
    | inl now ↦
        rw (now_at f d l, now)
          (inr (
            notify-HasEnded (failure interrupt) (record f { stack = s; depth = d })
              (ground (arith, l.no_result))
              (ap (conclude i) (unwind-aborted host i s interrupt _))))
    | inr later ↦
        rw (now_at f d l, later)
          (pop_success-Reaches s v (record f { stack = s; depth = d }) (ground (arith, l.no_result))
            m.1)
  ]
  pop_success-Reaches (fiber_ref_cont k p ∷ s) v f l m =
      pop_success-Reaches s v (record f { stack = s; world = restored_ref k p f.world })
        (ground (arith, l.no_result)) m.1
  pop_success-Reaches (success_cont k ∷ s) v f l m =
      continue_with-Reaches (k v f.world) (record f { stack = s }) (ground (arith, l.no_result))
        (m.0 v f.world) m.1
  pop_success-Reaches (fold_cont h k ∷ s) v f l m =
      continue_with-Reaches (k v f.world) (record f { stack = s }) (ground (arith, l.no_result))
        (m.0.1 v f.world) m.1

  handled_by-Reaches :
      (thrown : E → World H V → Fiber H V E × Bool) (b : Body H V E) (f : Fiber H V E)
      → Lives f
      → CalmHandler b
      → CalmStack f.stack
      → ((y : E) (w : World H V)
          → ReachesSteady
              (conclude i
                (unwind host i f.stack (ended (failure (Cause.fail y)) (at_world w (context f)))))
              (thrown y w).0)
      → ReachesSteady
          (conclude i (unwind host i f.stack (eval_handler host i b (context f))))
          (handled_by thrown b f).0
  unfolding handled_by eval Calm
  handled_by-Reaches thrown (returns a w) f l q m ih =
      inl (ground (arith, l.no_result), refl, (q.0, m), q.1)
  handled_by-Reaches thrown (throws y w) f l q m ih = ih y w

  pub pop_cause-Reaches :
      (s : List (Frame H V E)) (e : Cause E) (f : Fiber H V E)
      → Lives f
      → CalmStack s
      → ReachesSteady
          (conclude i (unwind host i s (ended (failure e) (context f))))
          (pop_cause s e f).0
  unfolding pop_cause
  pop_cause-Reaches [] e f l m =
      inr (notify-HasEnded (failure e) (record f { stack = [] }) (ground (arith, l.no_result)) refl)
  pop_cause-Reaches (interruptibility_cont d ∷ s) e f l m =
      let g = record f { stack = s; depth = d } in
      let t =
        conclude i (unwind host i s (ended (failure (leaving (i && (d == 0)) e)) (context g))) in
      subst (λ (now : Bool). ReachesSteady t (pop_cause s (leaving now e) g).0) (sym (now_at f d l))
        (pop_cause-Reaches s (leaving (i && (d == 0)) e) g (ground (arith, l.no_result)) m.1)
  pop_cause-Reaches (fiber_ref_cont k p ∷ s) e f l m =
      pop_cause-Reaches s e (record f { stack = s; world = restored_ref k p f.world })
        (ground (arith, l.no_result)) m.1
  pop_cause-Reaches (success_cont k ∷ s) e f l m =
      pop_cause-Reaches s e (record f { stack = s }) (ground (arith, l.no_result)) m.1
  pop_cause-Reaches (fold_cont h k ∷ s) e f l m = elim (Bool-cases (is_failure_only e)) [
    | inr other ↦
        rw other (pop_cause-Reaches s e (record f { stack = s }) (ground (arith, l.no_result)) m.1)
    | inl plain ↦ elim (Option-cases (first_failure e)) [
      | inl empty ↦
          rw (plain, empty)
            (inr (
              notify-HasEnded (failure e) (record f { stack = s }) (ground (arith, l.no_result))
                (ap (conclude i) (unwind-aborted host i s e _))))
      | inr (x, found) ↦
          rw (plain, found)
            (handled_by-Reaches
              (λ y w. pop_cause s (Cause.fail y) (record f { stack = s; world = w })) (h x f.world)
              (record f { stack = s }) (ground (arith, l.no_result)) (m.0.0 x f.world) m.1
              λ y w.
                pop_cause-Reaches s (Cause.fail y) (record f { stack = s; world = w })
                  (ground (arith, l.no_result)) m.1)
    ]
  ]
