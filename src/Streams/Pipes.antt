-- ===== src/Streams/Pipes.antt =====
-- pipeline.ts: `mapP`, `filterP`, `filterMapP`, `takeP` and `dropP` on a stream; and stream.ts:
-- `mapStream` and `zip`. Counts are natural numbers, so `Math.max(0, n | 0)` is the identity.
pub mod Agrees
pub mod Rebuilt
use brass_runtime.Base.{ℕ, zero, suc, Bool, map, Option, none, some, if◌then◌else◌}
use brass_runtime.Streams.{
  Zio, succeed, suspended_success, suspended_failure, ZStream, empty_stream, from_array,
  emit_stream, concat_stream, from_pull, Pull, ended, broken, next, uncons, elements_of,
}

module _ {E B : Type 0} where
  abbrev pub mapped_or : Option B → Pull E B → Pull E B
  mapped_or (some b) rest = next b (from_pull rest)
  mapped_or none rest = rest

module _ {E A B : Type 0} where
  -- `asyncFold(pull, onError, onSuccess)`, where `onError` passes the failure on.
  abbrev pub fold_pull : Pull E A → (A → ZStream E A → Pull E B) → Pull E B
  fold_pull ended on_success = ended
  fold_pull (broken e) on_success = broken e
  fold_pull (next a tail) on_success = on_success a tail

  pub map_loop : ℕ → (A → B) → ZStream E A → ZStream E B
  map_loop zero f cur = empty_stream
  map_loop (suc fuel) f cur =
      from_pull (fold_pull (uncons cur) (λ a tail. next (f a) (map_loop fuel f tail)))

  pub map_p : (A → B) → ZStream E A → ZStream E B
  unfolding map_loop
  map_p f input = map_loop (suc (elements_of input)) f input

  pub filter_map_next : ℕ → (A → Option B) → ZStream E A → Pull E B
  filter_map_next zero f cur = ended
  filter_map_next (suc fuel) f cur =
      fold_pull (uncons cur) (λ a tail. mapped_or (f a) (filter_map_next fuel f tail))

  pub filter_map_p : (A → Option B) → ZStream E A → ZStream E B
  unfolding filter_map_next
  filter_map_p f input = from_pull (filter_map_next (suc (elements_of input)) f input)

  -- `map(effect, f)` is a FlatMap node, which has to be run.
  abbrev pub map_zio : (A → B) → Zio E A → Zio E B
  map_zio f (succeed a) = suspended_success (f a)
  map_zio f (suspended_success a) = suspended_success (f a)
  map_zio f (suspended_failure e) = suspended_failure e

  mutual
    pub map_stream : (A → B) → ZStream E A → ZStream E B
    map_stream f empty_stream = empty_stream
    map_stream f (from_array values) = from_array (map f values)
    map_stream f (emit_stream value) = emit_stream (map_zio f value)
    map_stream f (from_pull pull) = from_pull (map_pull f pull)
    map_stream f (concat_stream left right) = concat_stream (map_stream f left) (map_stream f right)

    pub map_pull : (A → B) → Pull E A → Pull E B
    map_pull f ended = ended
    map_pull f (broken e) = broken e
    map_pull f (next a tail) = next (f a) (map_stream f tail)

module _ {E A : Type 0} where
  pub filter_next : ℕ → (A → Bool) → ZStream E A → Pull E A
  filter_next zero pred cur = ended
  filter_next (suc fuel) pred cur = fold_pull (uncons cur) (λ a tail.
      let rest = filter_next fuel pred tail in if pred a then next a (from_pull rest) else rest)

  pub filter_p : (A → Bool) → ZStream E A → ZStream E A
  unfolding filter_next
  filter_p pred input = from_pull (filter_next (suc (elements_of input)) pred input)

  -- `takeP`
  pub take_p : ℕ → ZStream E A → ZStream E A
  take_p zero cur = empty_stream
  take_p (suc remaining) cur =
      from_pull (fold_pull (uncons cur) (λ a tail. next a (take_p remaining tail)))

  -- `dropP`
  pub drop_p : ℕ → ZStream E A → ZStream E A
  drop_p zero cur = cur
  drop_p (suc remaining) cur =
      from_pull (fold_pull (uncons cur) (λ a tail. uncons (drop_p remaining tail)))

module _ {E A B : Type 0} where
  pub zip_loop : ℕ → ZStream E A → ZStream E B → ZStream E (A × B)
  zip_loop zero left right = empty_stream
  zip_loop (suc fuel) left right = from_pull (
      fold_pull (uncons left) (λ a tail_left.
        fold_pull (uncons right)
          (λ b tail_right. next (a, b) (zip_loop fuel tail_left tail_right))))

  pub zip : ZStream E A → ZStream E B → ZStream E (A × B)
  unfolding zip_loop
  zip left right = zip_loop (suc (elements_of left)) left right
