-- ===== src/Async/Combinators.antt =====
-- The effects that asyncEffect.ts derives from its constructors.
use brass_runtime.Base.{◌⊎◌, inl, inr}
use brass_runtime.Async.{
  World, Call, returned, threw, Async, Body, returns, throws, succeed, fail, sync, flat_map, fold,
}

module _ {H V E : Type 0} where
  abbrev pub async_succeed : V → Async H V E
  async_succeed v = succeed v

  abbrev pub async_fail : E → Async H V E
  async_fail e = fail e

  abbrev pub async_sync : (World H V → Call H V E) → Async H V E
  async_sync thunk = sync thunk

  abbrev pub async_total : (World H V → Call H V E) → Async H V E
  async_total thunk = async_sync thunk

  abbrev pub async_fold :
      Async H V E → (E → World H V → Body H V E) → (V → World H V → Body H V E) → Async H V E
  async_fold fa on_failure on_success = fold fa on_failure on_success

  abbrev pub async_flat_map : Async H V E → (V → World H V → Body H V E) → Async H V E
  async_flat_map fa f = flat_map fa f

  abbrev pub async_catch_all : Async H V E → (E → World H V → Body H V E) → Async H V E
  async_catch_all fa handler = async_fold fa handler λ v w. returns (async_succeed v) w

  -- `f` returns an error, on the left, or throws.
  abbrev pub failing : (E ⊎ E) × World H V → Body H V E
  failing (inl e, w) = returns (async_fail e) w
  failing (inr x, w) = throws x w

  abbrev pub async_map_error : Async H V E → (E → World H V → (E ⊎ E) × World H V) → Async H V E
  async_map_error fa f = async_fold fa (λ e w. failing (f e w)) λ v w. returns (async_succeed v) w

  abbrev pub succeeding : Call H V E → Body H V E
  succeeding (returned v w) = returns (async_succeed v) w
  succeeding (threw x w) = throws x w

  abbrev pub async_map : Async H V E → (V → World H V → Call H V E) → Async H V E
  async_map fa f = async_flat_map fa λ v w. succeeding (f v w)

  abbrev pub map_async : Async H V E → (V → World H V → Call H V E) → Async H V E
  map_async fa f = async_flat_map fa λ v w. succeeding (f v w)

  abbrev pub map_try_async : Async H V E → (V → World H V → Call H V E) → Async H V E
  map_try_async fa f = async_flat_map fa λ v w. returns (async_sync (f v)) w
