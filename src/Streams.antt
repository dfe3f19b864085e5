-- ===== src/Streams.antt =====
-- core/stream/stream.ts: streams, `uncons`, `collectStream`, `mapStream` and `zip`.
-- An effect is read as its outcome: `succeed` is a node that the code can read at once, the others
-- have to be run. A stream is finite. Flatten, Merge, Scoped and Managed streams, which race or
-- open scopes, are left out; what they give when they are pulled can be written as a `from_pull`.
-- `[a, tail]` is `next`, a failure with `none` is `ended`. A loop that pulls until the end has fuel
-- for the elements of its stream.
pub mod Runs
pub mod Collects
pub mod Pipes
mod Tests
use brass_runtime.Base.{ℕ, suc, ◌+◌, List, [], ◌∷◌, length}

-- `ZIO<R, E, A>`
pub data Zio (E A : Type 0) : Type 0 where
  succeed : A → Zio E A
  suspended_success : A → Zio E A
  suspended_failure : E → Zio E A

mutual
  pub data ZStream (E A : Type 0) : Type 0 where
    empty_stream : ZStream E A
    from_array : List A → ZStream E A
    emit_stream : Zio E A → ZStream E A
    concat_stream : ZStream E A → ZStream E A → ZStream E A
    from_pull : Pull E A → ZStream E A

  pub data Pull (E A : Type 0) : Type 0 where
    ended : Pull E A
    broken : E → Pull E A
    next : A → ZStream E A → Pull E A

module _ {E A : Type 0} where
  abbrev pub uncons_array : List A → Pull E A
  uncons_array [] = ended
  uncons_array (a ∷ []) = next a empty_stream
  uncons_array (a ∷ b ∷ rest) = next a (from_array (b ∷ rest))

  abbrev pub uncons_emit : Zio E A → Pull E A
  uncons_emit (succeed a) = next a empty_stream
  uncons_emit (suspended_success a) = next a empty_stream
  uncons_emit (suspended_failure e) = broken e

  -- `orElseOptional` of the left pull, whose tail keeps the right stream, and the right pull.
  abbrev pub or_else_right : Pull E A → ZStream E A → Pull E A → Pull E A
  or_else_right ended right on_right = on_right
  or_else_right (broken e) right on_right = broken e
  or_else_right (next a tail) right on_right = next a (concat_stream tail right)

  pub uncons : ZStream E A → Pull E A
  uncons empty_stream = ended
  uncons (from_array values) = uncons_array values
  uncons (emit_stream value) = uncons_emit value
  uncons (from_pull pull) = pull
  uncons (concat_stream left right) = or_else_right (uncons left) right (uncons right)

  -- The number of elements, which is the fuel for a loop that pulls them all.
  mutual
    pub elements_of : ZStream E A → ℕ
    elements_of empty_stream = 0
    elements_of (from_array values) = length values
    elements_of (emit_stream value) = 1
    elements_of (concat_stream left right) = elements_of left + elements_of right
    elements_of (from_pull pull) = elements_of_pull pull

    pub elements_of_pull : Pull E A → ℕ
    elements_of_pull ended = 0
    elements_of_pull (broken e) = 0
    elements_of_pull (next a tail) = suc (elements_of tail)

  -- `fromArray`
  abbrev pub stream_of : List A → ZStream E A
  stream_of [] = empty_stream
  stream_of (a ∷ rest) = from_array (a ∷ rest)
