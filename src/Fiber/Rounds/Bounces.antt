-- ===== src/Fiber/Rounds/Bounces.antt =====
-- A round of the trampoline comes to what the reference says of the current FlatMap.
use brass_runtime.Base.{
  Bool, false, List, ◌∷◌, Option, none, some, ◌≡◌, refl, ap, inl, inr, arith, subst,
}
use brass_runtime.Effect.{Exit, success, failure, die}
use brass_runtime.Async.{
  World, Call, returned, threw, Registered, Async, Body, returns, throws, succeed, fail, sync,
  async, flat_map, fold,
}
use brass_runtime.Fiber.State.{
  StepDecision, done, suspend, Frame, success_cont, Finalizer, Fiber, Host,
}
use brass_runtime.Fiber.Machine.{
  Bounce, again, left, is_flat_map, resolved_now, descend, bounce_on, bounce_sync, bounce_failed,
  bounce_exit, bounce_registered, bounce, bounce_from, trampoline_round, push,
}
use brass_runtime.Fiber.Calm.{Steady, Calm, CalmBody, CalmFrame, CalmStack, IsCalm}
use brass_runtime.Fiber.Eval.{
  Context, Outcome, ended, eval, eval_body, thrown_fatal, of_resolved, unwind, through, Verdict,
  conclude, context,
}
use brass_runtime.Fiber.Rounds.{
  Lives, ReachesSteady, HasEnded, comes_to, notify-HasEnded, unwind-aborted,
}
use brass_runtime.Fiber.Rounds.Switch.{Suspends, target, on_cause-Reaches, await_callback-Suspends}

module _ {H V E : Type 0} where
  abbrev Innermost : Async H V E → Type 0
  Innermost (flat_map a k) = is_flat_map a ≡ false
  Innermost e = Unit

module _ {H V E : Type 0} (host : Host H V E) (i : Bool) (fins : List (Finalizer H V E))
    (js : List (Exit E V → World H V → World H V)) where
  -- How the trampoline returns: it has ended the fiber, or suspended it.
  abbrev pub EndedRight : StepDecision → Verdict H V E → Fiber H V E → Type 0
  EndedRight done t g = HasEnded host i fins js t g
  EndedRight suspend t g = Suspends host i fins js t g
  EndedRight _ t g = ⊥

  -- A return with CONTINUE leaves an effect that the switch of `step` can take.
  abbrev pub Right : Verdict H V E → Bounce H V E → Type 0
  Right t (again g) = Lives host i fins js g × (comes_to host i fins js g ≡ t) × IsCalm g
  Right t (Bounce.ended d g) = EndedRight d t g
  Right t (left g) =
      Lives host i fins js g × (comes_to host i fins js g ≡ t) × IsCalm g × Steady g.current

  bounce_on-Right :
      (b : Body H V E) (f : Fiber H V E)
      → Lives host i fins js f
      → CalmBody b
      → CalmStack f.stack
      → Right (target host i fins js f (eval_body host i b (context f))) (bounce_on b f)
  unfolding bounce_on eval Calm
  bounce_on-Right (returns e w) f l q m = (ground (arith, l.no_result), refl, (q, m))
  bounce_on-Right (throws x w) f l q m =
      notify-HasEnded host i fins js (failure (die x)) (record f { world = w })
        (ground (arith, l.no_result)) (ap (conclude i) (unwind-aborted host i f.stack (die x) _))

  -- What the reference says once the first effect of a FlatMap has come to an outcome.
  abbrev after_first : (V → World H V → Body H V E) → Fiber H V E → Outcome H V E → Verdict H V E
  after_first k f o = target host i fins js f (through host i (success_cont k) o)

  bounce_sync-Right :
      (k : V → World H V → Body H V E) (r : Call H V E) (f : Fiber H V E)
      → Lives host i fins js f
      → CalmFrame (success_cont k)
      → CalmStack f.stack
      → Right (after_first k f (thrown_fatal r (context f))) (bounce_sync k r f)
  unfolding bounce_sync
  bounce_sync-Right k (returned v w) f l q m =
      bounce_on-Right (k v w) (record f { world = w }) (ground (arith, l.no_result)) (q v w) m
  bounce_sync-Right k (threw x w) f l q m =
      notify-HasEnded host i fins js (failure (die x)) (record f { world = w })
        (ground (arith, l.no_result)) (ap (conclude i) (unwind-aborted host i f.stack (die x) _))

  bounce_failed-Right :
      (t : Verdict H V E) (g : Fiber H V E)
      → ReachesSteady host i fins js t g
      → Right t (bounce_failed g)
  unfolding bounce_failed
  bounce_failed-Right t g (inl (l, e, c, y)) = simp l.no_result (l, e, c, y)
  bounce_failed-Right t g (inr (x, w, s, e, r, h)) = simp r (x, w, s, e, refl, h)

  bounce_exit-Right :
      (k : V → World H V → Body H V E) (x : Exit E V) (f : Fiber H V E)
      → Lives host i fins js f
      → CalmFrame (success_cont k)
      → CalmStack f.stack
      → Right (after_first k f (ended x (context f))) (bounce_exit k x f)
  unfolding bounce_exit
  bounce_exit-Right k (success v) f l q m = bounce_on-Right (k v f.world) f l (q v f.world) m
  bounce_exit-Right k (failure c) f l q m = bounce_failed-Right _ _ (
      on_cause-Reaches host i fins js c (push (success_cont k) f) (ground (arith, l.no_result))
        (q, m))

  bounce_registered-Right :
      (k : V → World H V → Body H V E) (o : Option (Exit E V)) (r : Registered H V E)
      (f : Fiber H V E)
      → Lives host i fins js f
      → CalmFrame (success_cont k)
      → CalmStack f.stack
      → Right (after_first k f (of_resolved o r (context f))) (bounce_registered k o r f)
  bounce_registered-Right k (some x) r f l q m =
      bounce_exit-Right k x (resolved_now r f) (ground (arith, l.no_result)) q m
  bounce_registered-Right k none r f l q m =
      await_callback-Suspends host i fins js r (push (success_cont k) f)
        (ground (arith, l.no_result)) (q, m)

  bounce-Right :
      (a : Async H V E) (k : V → World H V → Body H V E) (f : Fiber H V E)
      → Lives host i fins js f
      → Calm (flat_map a k)
      → CalmStack f.stack
      → is_flat_map a ≡ false
      → Right (target host i fins js f (eval host i (flat_map a k) (context f))) (bounce a k f)
  unfolding bounce eval Calm
  bounce-Right (succeed v) k f l q m n = bounce_on-Right (k v f.world) f l (q.1 v f.world) m
  bounce-Right (fail e) k f l q m n = (ground (arith, l.no_result), refl, (q.0, (q.1, m)), tt)
  bounce-Right (sync thunk) k f l q m n = bounce_sync-Right k (thunk f.world) f l q.1 m
  bounce-Right (async register) k f l q m n =
      simp l.not_finishing
        (bounce_registered-Right k (register f.world).resolved (register f.world) f l q.1 m)
  bounce-Right (flat_map a h) k f l q m n = cc
  bounce-Right (fold a h s) k f l q m n =
      (ground (arith, l.no_result), refl, (q.0.0, ((q.0.1, q.0.2), (q.1, m))))
  bounce-Right a k f l q m n = (ground (arith, l.no_result), refl, (q.0, (q.1, m)), tt)

  bounce_from-Right :
      (e : Async H V E) (f : Fiber H V E)
      → Lives host i fins js f
      → Calm e
      → CalmStack f.stack
      → Innermost e
      → Right (target host i fins js f (eval host i e (context f))) (bounce_from e f)
  unfolding bounce_from
  bounce_from-Right (flat_map a k) f l q m n = bounce-Right a k f l q m n
  bounce_from-Right (succeed v) f l q m n = (ground (arith, l.no_result), refl, (q, m), tt)
  bounce_from-Right e f l q m n = (ground (arith, l.no_result), refl, (q, m), tt)

  -- Going down left-nested FlatMaps does not change what the fiber comes to.
  abbrev Descended :
      Async H V E → List (Frame H V E) → Context H V → Async H V E × List (Frame H V E) → Type 0
  Descended e s c d =
      (unwind host i d.1 (eval host i d.0 c) ≡ unwind host i s (eval host i e c))
      × Calm d.0
      × CalmStack d.1
      × Innermost d.0

  descend-Descended :
      (e : Async H V E) (s : List (Frame H V E)) (c : Context H V)
      → Calm e
      → CalmStack s
      → Descended e s c (descend e s)
  unfolding descend eval Calm
  descend-Descended (flat_map (flat_map a g) k) s c q m =
      descend-Descended (flat_map a g) (success_cont k ∷ s) c q.0 (q.1, m)
  descend-Descended (flat_map (succeed v) k) s c q m = (refl, q, m, refl)
  descend-Descended (flat_map _ k) s c q m = (refl, q, m, refl)
  descend-Descended _ s c q m = (refl, q, m, tt)

  -- A round of the trampoline comes to what the reference says.
  pub trampoline_round-Right :
      (f : Fiber H V E)
      → Lives host i fins js f
      → IsCalm f
      → Right (comes_to host i fins js f) (trampoline_round f)
  unfolding trampoline_round
  trampoline_round-Right f l m =
      let d = descend f.current f.stack in
      let (e, q, n, y) = descend-Descended f.current f.stack (context f) m.0 m.1 in
      subst (λ o. Right (conclude i o) (bounce_from d.0 (record f { stack = d.1 }))) e
        (bounce_from-Right d.0 (record f { stack = d.1 }) (ground (arith, l.no_result)) q n y)
