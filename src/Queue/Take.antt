-- ===== src/Queue/Take.antt =====
-- `take`, `takeBatch` and `shutdown`.
use brass_runtime.Base.{
  ℕ, zero, suc, ◌+◌, min, max, true, false, ◌&&◌, List, [], ◌∷◌, Option, none, some, length, ltb,
  ◌==◌, if◌then◌else◌,
}
use brass_runtime.Ring.{bounded_clear}
use brass_runtime.LinkedQueue.{LinkedQueue, len, linked, remove}
use brass_runtime.LinkedQueue
use brass_runtime.Queue.{
  Queue, OfferWaiter, Taker, offered, got, queue_closed, size, waiting_offers, call, push_item,
  shift_item, record_offer_wait, record_take_wait,
}

module _ {A : Type 0} (now : ℕ → ℕ) where
  -- A waiting offer whose value goes into the buffer.
  abbrev pub admit : Option (OfferWaiter A) × LinkedQueue (OfferWaiter A) → Queue A → Queue A
  admit (none, rest) q = q
  admit (some w, rest) q =
      let q1 = record_offer_wait now w.started_at (record q { offer_waiters = rest }) in
      call w.cb (offered true) (push_item w.a (record q1 { accepted = q1.accepted + 1 }))

  -- `if (offerWaiters.length > 0 && items.length < capacity) { ... }`
  abbrev pub refill : Queue A → Queue A
  refill q = if ltb (size q) q.capacity then admit (LinkedQueue.shift q.offer_waiters) q else q

  -- A waiting offer whose value goes to the caller.
  abbrev pub consume : LinkedQueue (OfferWaiter A) → OfferWaiter A → Queue A → Queue A
  consume rest w q =
      let q1 = record_offer_wait now w.started_at (record q { offer_waiters = rest }) in
      call w.cb (offered true) (record q1 { accepted = q1.accepted + 1; taken = q1.taken + 1 })

  abbrev pub suspend_take : ℕ → Queue A → Queue A
  suspend_take cb q =
      let (node, waiters) =
        LinkedQueue.push (record { started_at = now q.readings; cb = cb }) q.takers in
      record q {
        readings = suc q.readings;
        takers = waiters;
        max_waiting_takers = max q.max_waiting_takers (len waiters);
      }

  abbrev pub take_from_offers :
      Option (OfferWaiter A) × LinkedQueue (OfferWaiter A) → ℕ → Queue A → Queue A
  take_from_offers (some w, rest) cb q = call cb (got (some w.a)) (consume rest w q)
  take_from_offers (none, rest) cb q =
      if q.closed then call cb queue_closed q else suspend_take cb q

  unfoldable pub take : ℕ → Queue A → Queue A
  take cb q =
      let q1 = record q { take_calls = q.take_calls + 1 } in
      if ltb 0 (size q1)
      then (let (a, q2) = shift_item q1 in
          refill (call cb (got a) (record q2 { taken = q2.taken + 1 })))
      else take_from_offers (LinkedQueue.shift q1.offer_waiters) cb q1

  -- The canceler of a take that waits at `node`.
  abbrev pub stop_waiting_take : ℕ → Option Taker → Queue A → Queue A
  stop_waiting_take node none q = record q { takers = remove node q.takers }
  stop_waiting_take node (some t) q =
      let q1 = record_take_wait now t.started_at q in
      record q1 { cancelled_takes = q1.cancelled_takes + 1; takers = remove node q1.takers }

  unfoldable pub cancel_take : ℕ → Queue A → Queue A
  cancel_take node q = stop_waiting_take node (linked node q.takers.nodes) q

  -- What one turn of the loop of `takeBatch` adds to `results`, none when it breaks.
  abbrev pub batch_from_offers :
      Option (OfferWaiter A) × LinkedQueue (OfferWaiter A) → Queue A → Option (Option A) × Queue A
  batch_from_offers (some w, rest) q = (some (some w.a), consume rest w q)
  batch_from_offers (none, rest) q = (none, q)

  unfoldable pub take_one : Queue A → Option (Option A) × Queue A
  take_one q =
      if ltb 0 (size q)
      then (let (a, q1) = shift_item q in (some a, refill (record q1 { taken = q1.taken + 1 })))
      else batch_from_offers (LinkedQueue.shift q.offer_waiters) q

  -- What the loop has when a turn gave `found` and left `q`, and `rest` is that of the later turns.
  abbrev pub batch_results :
      Option (Option A) → Queue A → List (Option A) × Queue A → List (Option A) × Queue A
  batch_results none q rest = ([], q)
  batch_results (some a) q rest = (a ∷ rest.0, rest.1)

  unfoldable pub take_loop : ℕ → Queue A → List (Option A) × Queue A
  take_loop zero q = ([], q)
  take_loop (suc n) q =
      let r = take_one q in let rest = take_loop n r.1 in batch_results r.0 r.1 rest

  -- `none` is the failure `QueueClosed`.
  unfoldable pub take_batch : ℕ → Queue A → Option (List (Option A)) × Queue A
  unfolding take_loop
  take_batch n q =
      let q1 = record q { take_calls = q.take_calls + 1 } in
      let (results, q2) = take_loop (min n (size q1 + waiting_offers q1)) q1 in
      if (length results == 0) && q2.closed then (none, q2) else (some results, q2)

  -- `while (takers.length > 0)` of `shutdown`.
  unfoldable pub fail_takers : List (ℕ × Taker) → Queue A → Queue A
  fail_takers [] q = q
  fail_takers ((node, t) ∷ rest) q = fail_takers rest (
      call t.cb queue_closed (
        record_take_wait now t.started_at (record q { takers = record q.takers { nodes = rest } })))

  -- `while (offerWaiters.length > 0)` of `shutdown`.
  unfoldable pub release_offers : List (ℕ × OfferWaiter A) → Queue A → Queue A
  release_offers [] q = q
  release_offers ((node, w) ∷ rest) q =
      let q1 =
        record_offer_wait now w.started_at
          (record q { offer_waiters = record q.offer_waiters { nodes = rest } }) in
      release_offers rest (call w.cb (offered false) (record q1 { dropped = q1.dropped + 1 }))

  unfoldable pub shutdown : Queue A → Queue A
  unfolding bounded_clear fail_takers release_offers
  shutdown q =
      if q.closed
      then q
      else (let q1 = fail_takers q.takers.nodes (record q { closed = true }) in
          let q2 = release_offers q1.offer_waiters.nodes q1 in
          record q2 {
            discarded_on_shutdown = q2.discarded_on_shutdown + size q2;
            items = bounded_clear q2.items;
          })
