-- ===== src/Queue/Runs.antt =====
-- A queue from its making on, under any sequence of operations.
use brass_runtime.Base.{ℕ, ◌^◌, ◌≤◌, ◌<◌, List, [], ◌∷◌, ◌≢◌, ◌⊎◌, refl, inl, arith}
use brass_runtime.Ring.{bounded_make}
use brass_runtime.Ring.Made.{make-IsValid, size-make}
use brass_runtime.Queue.{Queue, Strategy, sliding, make_queue}
use brass_runtime.Queue.Offer.{offer, cancel_offer, offer_batch}
use brass_runtime.Queue.Take.{take, cancel_take, take_batch, shutdown}
use brass_runtime.Queue.Valid.{IsValid}
use brass_runtime.Queue.Kept.Offers.{offer-IsValid}
use brass_runtime.Queue.Kept.Batches.{
  offer_batch-IsValid, cancel_offer-IsValid, cancel_take-IsValid,
}
use brass_runtime.Queue.Kept.Takes.{take-IsValid, take_batch-IsValid}
use brass_runtime.Queue.Kept.Shutdown.{shutdown-IsValid}

-- What a client can call, cancelers included.
pub data Operation (A : Type 0) : Type 0 where
  offering : ℕ → A → Operation A
  taking : ℕ → Operation A
  offering_all : List A → Operation A
  taking_up_to : ℕ → Operation A
  cancelling_offer : ℕ → Operation A
  cancelling_take : ℕ → Operation A
  closing : Operation A

module _ {A : Type 0} (now : ℕ → ℕ) where
  unfoldable pub run : Operation A → Queue A → Queue A
  run (offering cb a) q = offer now cb a q
  run (taking cb) q = take now cb q
  run (offering_all values) q = (offer_batch now values q).1
  run (taking_up_to n) q = (take_batch now n q).1
  run (cancelling_offer node) q = cancel_offer now node q
  run (cancelling_take node) q = cancel_take now node q
  run closing q = shutdown now q

  unfoldable pub after : List (Operation A) → Queue A → Queue A
  unfolding run
  after [] q = q
  after (o ∷ rest) q = after rest (run o q)

  run-IsValid : (o : Operation A) (q : Queue A) → IsValid q → IsValid (run o q)
  unfolding run
  run-IsValid (offering cb a) q v = offer-IsValid now cb a q v
  run-IsValid (taking cb) q v = take-IsValid now cb q v
  run-IsValid (offering_all values) q v = offer_batch-IsValid now values q v
  run-IsValid (taking_up_to n) q v = take_batch-IsValid now n q v
  run-IsValid (cancelling_offer node) q v = cancel_offer-IsValid now node q v
  run-IsValid (cancelling_take node) q v = cancel_take-IsValid now node q v
  run-IsValid closing q v = shutdown-IsValid now q v

  -- Any sequence of offers, takes, batches, cancellations and shutdowns keeps a queue well-formed:
  -- the buffer within its bound, takes waiting only while there is nothing to take, offers only
  -- while the buffer is full, nothing left after a shutdown, and every offer and every accepted
  -- value accounted for.
  pub after-IsValid : (os : List (Operation A)) (q : Queue A) → IsValid q → IsValid (after os q)
  unfolding after
  after-IsValid [] q v = v
  after-IsValid (o ∷ os) q v = after-IsValid os (run o q) (run-IsValid o q v)

module _ {A : Type 0} where
  -- A new queue of a capacity up to 2^31, not 0 for the sliding strategy, is well-formed.
  pub make_queue-IsValid :
      (capacity : ℕ) (strategy : Strategy)
      → capacity ≤ 2 ^ 31
      → (strategy ≢ sliding) ⊎ (0 < capacity)
      → IsValid (make_queue {A = A} capacity strategy)
  unfolding make_queue bounded_make
  make_queue-IsValid capacity strategy h s =
      let (v, r, _, _) = make-IsValid {A = A} capacity capacity h h in
      record {
        ring = v;
        room = r;
        bound = omega (arith, size-make A capacity capacity);
        slides = s;
        takers_wait = inl refl;
        offers_wait = inl refl;
        after_close = inl refl;
        offers_counted = refl;
        values_counted = omega (arith, size-make A capacity capacity);
      }

  -- A new queue of a capacity up to 2^31, not 0 for the sliding strategy, is well-formed after any
  -- sequence of offers, takes, batches, cancellations and shutdowns: the buffer within its bound,
  -- takes waiting only while there is nothing to take, offers only while the buffer is full, nothing
  -- left after a shutdown, and every offer and every accepted value accounted for.
  pub new-IsValid :
      (now : ℕ → ℕ) (capacity : ℕ) (strategy : Strategy) (os : List (Operation A))
      → capacity ≤ 2 ^ 31
      → (strategy ≢ sliding) ⊎ (0 < capacity)
      → IsValid (after now os (make_queue capacity strategy))
  new-IsValid now capacity strategy os h s =
      after-IsValid now os (make_queue capacity strategy) (make_queue-IsValid capacity strategy h s)
