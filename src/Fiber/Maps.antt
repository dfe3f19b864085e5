-- ===== src/Fiber/Maps.antt =====
-- What the maps of asyncEffect.ts mean when the function throws.
use brass_runtime.Base.{Bool, ◌≡◌, refl, ap, ◌∙◌}
use brass_runtime.Effect.{Exit, success, failure, die}
use brass_runtime.Effect
use brass_runtime.Async.{World, Call, returned, threw, Async, Body, returns, sync, flat_map}
use brass_runtime.Async.Combinators.{succeeding, async_map, map_async, map_try_async}
use brass_runtime.Fiber.State.{Host, success_cont}
use brass_runtime.Fiber.Eval.{
  Context, at_world, ended, aborted, under_flat_map, eval, eval_body, bind, of_call,
}

module _ {H V E : Type 0} (host : Host H V E) (i : Bool) where
  -- What a map makes of an effect that ends with a value: `f` on that value and on the world then.
  abbrev pub Maps :
      Async H V E → (V → World H V → Call H V E) → Context H V → Context H V → Call H V E → Type 0
  Maps a f c d (returned v w) =
      (eval host i (async_map a f) c ≡ ended (success v) (at_world w d))
      × (eval host i (map_async a f) c ≡ ended (success v) (at_world w d))
      × (eval host i (map_try_async a f) c ≡ ended (success v) (at_world w d))
  Maps a f c d (threw e w) =
      (eval host i (async_map a f) c ≡ aborted (die e) (at_world w d))
      × (eval host i (map_async a f) c ≡ aborted (die e) (at_world w d))
      × (eval host i (map_try_async a f) c ≡ ended (failure (Effect.fail e)) (at_world w d))

  -- The continuation of a map, on the value.
  bound :
      (a : Async H V E) (k : V → World H V → Body H V E) (c d : Context H V) (v : V)
      → under_flat_map a c (eval host i a c) ≡ ended (success v) d
      → eval host i (flat_map a k) c ≡ eval_body host i (k v d.world) d
  unfolding eval
  bound a k c d v e = ap (bind (success_cont k) (λ x t. eval_body host i (k x t.world) t)) e

  Maps-with :
      (a : Async H V E) (f : V → World H V → Call H V E) (c d : Context H V) (v : V)
      (r : Call H V E)
      → under_flat_map a c (eval host i a c) ≡ ended (success v) d
      → f v d.world ≡ r
      → Maps a f c d r
  unfolding eval
  Maps-with a f c d v (returned y w) e r =
      let mapped =
        bound a (λ v w. succeeding (f v w)) c d v e
        ∙ ap (λ t. eval_body host i (succeeding t) d) r in
      (mapped, mapped, bound a (λ v w. returns (sync (f v)) w) c d v e ∙ ap (λ t. of_call t d) r)
  Maps-with a f c d v (threw x w) e r =
      let mapped =
        bound a (λ v w. succeeding (f v w)) c d v e
        ∙ ap (λ t. eval_body host i (succeeding t) d) r in
      (mapped, mapped, bound a (λ v w. returns (sync (f v)) w) c d v e ∙ ap (λ t. of_call t d) r)

  -- After an effect that ends with a value below a FlatMap, `asyncMap`, `mapAsync` and `mapTryAsync`
  -- give what the function returns; what it throws ends the fiber with a defect in the first two,
  -- and is a typed failure in the third.
  pub Maps-agree :
      (a : Async H V E) (f : V → World H V → Call H V E) (c d : Context H V) (v : V)
      → under_flat_map a c (eval host i a c) ≡ ended (success v) d
      → Maps a f c d (f v d.world)
  Maps-agree a f c d v e = Maps-with a f c d v (f v d.world) e refl
