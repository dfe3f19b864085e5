-- ===== src/Queue.antt =====
-- core/stream/queue.ts (`makeQueue`).
-- A callback is known by a number, and a call of it is an entry at the end of `log`; what it does
-- when it is called is not modelled. `now` gives
-- what the n-th reading of the clock returns. Times and counters are natural numbers; `Math.max(0,
-- a - b)` is their subtraction.
pub mod Offer
pub mod Take
pub mod Items
pub mod Valid
pub mod Kept
pub mod Order
pub mod Full
pub mod Runs
mod Tests
use brass_runtime.Base.{
  ℕ, zero, suc, ◌+◌, ◌-◌, min, max, Bool, true, false, not, ◌&&◌, List, [], ◌∷◌, ◌++◌, Option, none,
  some, length, ltb, ◌==◌, if◌then◌else◌,
}
use brass_runtime.Ring.{Bounded, bounded_make, bounded_push, bounded_shift, bounded_clear}
use brass_runtime.LinkedQueue.{LinkedQueue, empty, len, shift, linked, is_removed, remove}
use brass_runtime.LinkedQueue

pub data Strategy : Type 0 where
  backpressure dropping sliding : Strategy

pub record OfferWaiter (A : Type 0) : Type 0 where
  pub a : A
  pub started_at : ℕ
  pub cb : ℕ

pub record Taker : Type 0 where
  pub started_at : ℕ
  pub cb : ℕ

-- What a callback is given: `offered` is the success of an offer, `got` that of a take (`none` is
-- `undefined`), `queue_closed` the failure of a take.
pub data Reply (A : Type 0) : Type 0 where
  offered : Bool → Reply A
  got : Option A → Reply A
  queue_closed : Reply A

pub record Queue (A : Type 0) : Type 0 where
  pub strategy : Strategy
  pub capacity : ℕ
  pub items : Bounded A
  pub closed : Bool
  pub offered : ℕ
  pub accepted : ℕ
  pub dropped : ℕ
  pub slid : ℕ
  pub discarded_on_shutdown : ℕ
  pub take_calls : ℕ
  pub taken : ℕ
  pub max_size : ℕ
  pub max_waiting_offers : ℕ
  pub max_waiting_takers : ℕ
  pub offer_wait_count : ℕ
  pub offer_wait_ms_total : ℕ
  pub offer_wait_ms_max : ℕ
  pub take_wait_count : ℕ
  pub take_wait_ms_total : ℕ
  pub take_wait_ms_max : ℕ
  pub cancelled_offers : ℕ
  pub cancelled_takes : ℕ
  pub offer_waiters : LinkedQueue (OfferWaiter A)
  pub takers : LinkedQueue Taker
  pub readings : ℕ
  pub log : List (ℕ × Reply A)

module _ {A : Type 0} where
  unfoldable pub make_queue : ℕ → Strategy → Queue A
  unfolding bounded_make
  make_queue capacity strategy = record {
    strategy = strategy;
    capacity = capacity;
    items = bounded_make capacity capacity;
    closed = false;
    offered = 0;
    accepted = 0;
    dropped = 0;
    slid = 0;
    discarded_on_shutdown = 0;
    take_calls = 0;
    taken = 0;
    max_size = 0;
    max_waiting_offers = 0;
    max_waiting_takers = 0;
    offer_wait_count = 0;
    offer_wait_ms_total = 0;
    offer_wait_ms_max = 0;
    take_wait_count = 0;
    take_wait_ms_total = 0;
    take_wait_ms_max = 0;
    cancelled_offers = 0;
    cancelled_takes = 0;
    offer_waiters = empty;
    takers = empty;
    readings = 0;
    log = [];
  }

  -- `items.length`
  abbrev pub size : Queue A → ℕ
  size q = q.items.inner.size

  abbrev pub waiting_offers : Queue A → ℕ
  waiting_offers q = len q.offer_waiters

  abbrev pub waiting_takers : Queue A → ℕ
  waiting_takers q = len q.takers

  -- `cb(reply)`
  abbrev pub call : ℕ → Reply A → Queue A → Queue A
  call cb reply q = record q { log = q.log ++ ((cb, reply) ∷ []) }

  abbrev pub push_item : A → Queue A → Queue A
  push_item value q =
      let items = (bounded_push value q.items).1 in
      record q { items = items; max_size = max q.max_size items.inner.size }

  -- `items.shift()`
  abbrev pub shift_item : Queue A → Option A × Queue A
  shift_item q = let (value, items) = bounded_shift q.items in (value, record q { items = items })

module _ {A : Type 0} (now : ℕ → ℕ) where
  abbrev pub record_offer_wait : ℕ → Queue A → Queue A
  record_offer_wait started_at q =
      let duration = now q.readings - started_at in
      record q {
        readings = suc q.readings;
        offer_wait_count = q.offer_wait_count + 1;
        offer_wait_ms_total = q.offer_wait_ms_total + duration;
        offer_wait_ms_max = max q.offer_wait_ms_max duration;
      }

  abbrev pub record_take_wait : ℕ → Queue A → Queue A
  record_take_wait started_at q =
      let duration = now q.readings - started_at in
      record q {
        readings = suc q.readings;
        take_wait_count = q.take_wait_count + 1;
        take_wait_ms_total = q.take_wait_ms_total + duration;
        take_wait_ms_max = max q.take_wait_ms_max duration;
      }
