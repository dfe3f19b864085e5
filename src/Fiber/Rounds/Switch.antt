-- ===== src/Fiber/Rounds/Switch.antt =====
-- A round of the switch in `step` comes to what the reference says of the current effect.
use mathlib.Core.List.{append-nil, append_assoc}
use brass_runtime.Base.{
  suc, Bool, false, List, [], ◌∷◌, ◌++◌, Option, none, some, ◌≡◌, refl, sym, ap, ◌∙◌, inl, inr,
  arith, Option-cases,
}
use brass_runtime.Effect.{Cause, Exit, success, failure, die}
use brass_runtime.Async.{
  World, Call, returned, threw, Registered, Async, Body, returns, throws, succeed, fail, sync,
  async, flat_map, fold, fork, interruptibility, interruptibility_mask, interruptibility_restore,
  fiber_ref_locally,
}
use brass_runtime.Fiber.State.{
  suspend, Frame, success_cont, fold_cont, interruptibility_cont, fiber_ref_cont, Finalizer,
  canceler, Fiber, Host,
}
use brass_runtime.Fiber.Unwind.{on_success, on_cause, on_failure}
use brass_runtime.Fiber.Machine.{
  Round, go, stop, await_callback, resolved_now, resume_with, run_sync, run_mask, exec,
  settle_registered,
}
use brass_runtime.Fiber.Calm.{Returns, Steady, Calm, CalmBody, CalmStack}
use brass_runtime.Fiber.Eval.{
  under_flat_map, thrown_fatal, through, Context, Outcome, ended, waiting, eval, eval_mask, of_call,
  of_resolved, unwind, Verdict, waits, conclude, context, at_world,
}
use brass_runtime.Fiber.Rounds.{
  Lives, Reaches, ReachesSteady, pop_success-Reaches, pop_cause-Reaches,
}

module _ {H V E : Type 0} where
  -- The finalizers that a suspension adds.
  abbrev pub cancelers : Option (World H V → World H V) → List (Finalizer H V E)
  cancelers none = []
  cancelers (some c) = canceler c ∷ []

module _ {H V E : Type 0} where
  waiting-append :
      (frs : List (Frame H V E)) (fr : Frame H V E) (s : List (Frame H V E))
      (r : Option (World H V → World H V)) (c : Context H V)
      → waiting ((frs ++ (fr ∷ [])) ++ s) r c ≡ waiting (frs ++ (fr ∷ s)) r c
  waiting-append frs fr s r c = ap (λ l. waiting l r c) (append_assoc frs (fr ∷ []) s)

  fatal : (r : Call H V E) (c : Context H V) → Returns r → thrown_fatal r c ≡ of_call r c
  fatal (returned v w) c y = refl
  fatal (threw e w) c y = absurd y

module _ {H V E : Type 0} (host : Host H V E) (i : Bool) where
  -- The rest of the stack is kept for the callback.
  pub unwind-waiting :
      (s frs : List (Frame H V E)) (r : Option (World H V → World H V)) (c : Context H V)
      → unwind host i s (waiting frs r c) ≡ waiting (frs ++ s) r c
  unwind-waiting [] frs r c = ap (λ l. waiting l r c) (sym (append-nil frs))
  unwind-waiting (success_cont k ∷ s) frs r c =
      unwind-waiting s (frs ++ (success_cont k ∷ [])) r c
      ∙ waiting-append frs (success_cont k) s r c
  unwind-waiting (fold_cont h k ∷ s) frs r c =
      unwind-waiting s (frs ++ (fold_cont h k ∷ [])) r c ∙ waiting-append frs (fold_cont h k) s r c
  unwind-waiting (interruptibility_cont d ∷ s) frs r c =
      unwind-waiting s (frs ++ (interruptibility_cont d ∷ [])) r c
      ∙ waiting-append frs (interruptibility_cont d) s r c
  unwind-waiting (fiber_ref_cont k p ∷ s) frs r c =
      unwind-waiting s (frs ++ (fiber_ref_cont k p ∷ [])) r c
      ∙ waiting-append frs (fiber_ref_cont k p) s r c

module _ {H V E : Type 0} (host : Host H V E) (i : Bool) (fins : List (Finalizer H V E))
    (js : List (Exit E V → World H V → World H V)) where
  -- The fiber waits for a callback, with the stack and the context that the reference says, and
  -- with the operation's canceler as its last finalizer.
  abbrev pub Suspends : Verdict H V E → Fiber H V E → Type 0
  Suspends t g =
      (r : Option (World H V → World H V)) × (t ≡ waits g.stack r (context g))
      × Lives host i (fins ++ cancelers r) js g
      × CalmStack g.stack
      × (g.sync_resolved ≡ false)

  abbrev pub Right : Verdict H V E → Round H V E → Type 0
  Right t (go g) = Reaches host i fins js t g
  Right t (stop d g) = (d ≡ suspend) × Suspends t g

  abbrev pub target : Fiber H V E → Outcome H V E → Verdict H V E
  target f o = conclude i (unwind host i f.stack o)

  pub on_success-Reaches :
      (v : V) (f : Fiber H V E)
      → Lives host i fins js f
      → CalmStack f.stack
      → Reaches host i fins js (target f (ended (success v) (context f))) (on_success v f)
  unfolding on_success
  on_success-Reaches v f l m = pop_success-Reaches host i fins js f.stack v f l m

  pub on_cause-Reaches :
      (e : Cause E) (f : Fiber H V E)
      → Lives host i fins js f
      → CalmStack f.stack
      → ReachesSteady host i fins js (target f (ended (failure e) (context f))) (on_cause e f).0
  unfolding on_cause
  on_cause-Reaches e f l m = pop_cause-Reaches host i fins js f.stack e f l m

  pub weaken :
      (t : Verdict H V E) (g : Fiber H V E)
      → ReachesSteady host i fins js t g
      → Reaches host i fins js t g
  weaken t g (inl (l, e, c, _)) = inl (l, e, c)
  weaken t g (inr h) = inr h

  on_failure-Reaches :
      (e : E) (f : Fiber H V E)
      → Lives host i fins js f
      → CalmStack f.stack
      → Reaches host i fins js
          (target f (ended (failure (Cause.fail e)) (context f)))
          (on_failure e f)
  unfolding on_failure
  on_failure-Reaches e f l m = weaken _ _ (on_cause-Reaches (Cause.fail e) f l m)

  pub resume_with-Reaches :
      (x : Exit E V) (f : Fiber H V E)
      → Lives host i fins js f
      → CalmStack f.stack
      → Reaches host i fins js (target f (ended x (context f))) (resume_with x f)
  unfolding resume_with
  resume_with-Reaches (success v) f l m = on_success-Reaches v f l m
  resume_with-Reaches (failure e) f l m = weaken _ _ (on_cause-Reaches e f l m)

  run_sync-Reaches :
      (r : Call H V E) (f : Fiber H V E)
      → Lives host i fins js f
      → CalmStack f.stack
      → Reaches host i fins js (target f (of_call r (context f))) (run_sync r f)
  unfolding run_sync
  run_sync-Reaches (returned v w) f l m =
      on_success-Reaches v (record f { world = w }) (ground (arith, l.no_result)) m
  run_sync-Reaches (threw e w) f l m =
      on_failure-Reaches e (record f { world = w }) (ground (arith, l.no_result)) m

  run_mask-Reaches :
      (b : Body H V E) (f : Fiber H V E)
      → Lives host i fins js f
      → CalmBody b
      → CalmStack f.stack
      → Reaches host i fins js (target f (eval_mask host i b (context f))) (run_mask b f)
  unfolding run_mask eval Calm
  run_mask-Reaches (returns e w) f l q m = inl (ground (arith, l.no_result), refl, (q, m))
  run_mask-Reaches (throws x w) f l q m =
      weaken _ _ (on_cause-Reaches (die x) (record f { world = w }) (ground (arith, l.no_result)) m)

  pub await_callback-Suspends :
      (r : Registered H V E) (f : Fiber H V E)
      → Lives host i fins js f
      → CalmStack f.stack
      → Suspends
          (target f (waiting [] r.canceler (at_world r.world (context f))))
          (await_callback r f)
  unfolding await_callback
  await_callback-Suspends r f l m = elim (Option-cases r.canceler) [
    | inl e ↦ rw e (
      none,
      ap (conclude i) (unwind-waiting host i f.stack [] none _),
      ground (arith, l.no_result, append-nil fins),
      m,
      refl,
    )
    | inr (c, e) ↦ rw e (
      some c,
      ap (conclude i) (unwind-waiting host i f.stack [] (some c) _),
      ground (arith, l.no_result),
      m,
      refl,
    )
  ]

  exec_async-Right :
      (r : Registered H V E) (o : Option (Exit E V)) (f : Fiber H V E)
      → Lives host i fins js f
      → CalmStack f.stack
      → Right (target f (of_resolved o r (context f))) (settle_registered o r f)
  exec_async-Right r (some x) f l m =
      resume_with-Reaches x (resolved_now r f) (ground (arith, l.no_result)) m
  exec_async-Right r none f l m = (refl, await_callback-Suspends r f l m)

  -- The one place where the reference looks below a FlatMap plays no part in a steady one.
  under-Steady :
      (a : Async H V E) (k : V → World H V → Body H V E) (c : Context H V)
      → Steady (flat_map a k)
      → under_flat_map a c (eval host i a c) ≡ eval host i a c
  unfolding eval
  under-Steady (sync thunk) k c y = fatal (thunk c.world) c (y c.world)
  under-Steady a k c y = refl

  -- The switch does to an effect what the reference says of it; to a FlatMap it does, if that is
  -- steady, and the others are left to the trampoline while the fiber lives.
  pub exec-Right :
      (e : Async H V E) (f : Fiber H V E)
      → Lives host i fins js f
      → Calm e
      → CalmStack f.stack
      → Steady e
      → Right (target f (eval host i e (context f))) (exec host e f)
  unfolding exec eval Calm
  exec-Right (succeed v) f l q m y = on_success-Reaches v f l m
  exec-Right (fail e) f l q m y = on_failure-Reaches e f l m
  exec-Right (sync thunk) f l q m y = run_sync-Reaches (thunk f.world) f l m
  exec-Right (async register) f l q m y =
      simp l.not_finishing (exec_async-Right (register f.world) (register f.world).resolved f l m)
  exec-Right (flat_map a k) f l q m y = inl (
    ground (arith, l.no_result),
    ap (λ o. target f (through host i (success_cont k) o)) (sym (under-Steady a k (context f) y)),
    (q.0, (q.1, m)),
  )
  exec-Right (fold a h k) f l q m y =
      inl (ground (arith, l.no_result), refl, (q.0, ((q.1, q.2), m)))
  exec-Right (fork e scope) f l q m y =
      let (v, w) = host.fork e scope f.world in
      on_success-Reaches v (record f { world = w }) (ground (arith, l.no_result)) m
  exec-Right (interruptibility n e) f l q m y =
      inl (ground (arith, l.no_result), refl, (q, (tt, m)))
  exec-Right (interruptibility_mask body) f l q m y =
      run_mask-Reaches (body f.depth f.world)
        (record f { stack = interruptibility_cont f.depth ∷ f.stack; depth = suc f.depth })
        (ground (arith, l.no_result)) (q f.depth f.world) (tt, m)
  exec-Right (interruptibility_restore d e) f l q m y =
      inl (ground (arith, l.no_result), refl, (q, (tt, m)))
  exec-Right (fiber_ref_locally k v e) f l q m y =
      inl (ground (arith, l.no_result), refl, (q, (tt, m)))
