-- ===== src/Queue/Offer.antt =====
-- `offer` and `offerBatch`.
use brass_runtime.Base.{
  ℕ, suc, ◌+◌, max, Bool, true, false, List, [], ◌∷◌, Option, none, some, length, ltb,
  if◌then◌else◌,
}
use brass_runtime.LinkedQueue.{LinkedQueue, len, linked, is_removed, remove}
use brass_runtime.LinkedQueue
use brass_runtime.Queue.{
  Queue, Strategy, backpressure, dropping, sliding, OfferWaiter, Taker, offered, got, size, call,
  push_item, shift_item, record_offer_wait, record_take_wait,
}

module _ {A : Type 0} (now : ℕ → ℕ) where
  -- The last part of `offer`: the node goes to the end of `offerWaiters`.
  abbrev pub suspend_offer : ℕ → A → Queue A → Queue A
  suspend_offer cb a q =
      let (node, waiters) =
        LinkedQueue.push (record { a = a; started_at = now q.readings; cb = cb }) q.offer_waiters in
      record q {
        readings = suc q.readings;
        offer_waiters = waiters;
        max_waiting_offers = max q.max_waiting_offers (len waiters);
      }

  abbrev pub offer_when_full : Strategy → ℕ → A → Queue A → Queue A
  offer_when_full dropping cb a q = call cb (offered false) (record q { dropped = q.dropped + 1 })
  offer_when_full sliding cb a q =
      let q1 = push_item a (shift_item q).1 in
      call cb (offered true) (record q1 { accepted = q1.accepted + 1; slid = q1.slid + 1 })
  offer_when_full backpressure cb a q = suspend_offer cb a q

  -- A taker that waits is given the value, and is the oldest one.
  abbrev pub hand_over : LinkedQueue Taker → Taker → A → Queue A → Queue A
  hand_over rest t a q =
      let q1 = record_take_wait now t.started_at (record q { takers = rest }) in
      call t.cb (got (some a)) (record q1 { taken = q1.taken + 1; accepted = q1.accepted + 1 })

  abbrev pub offer_open : Option Taker × LinkedQueue Taker → ℕ → A → Queue A → Queue A
  offer_open (some t, rest) cb a q = call cb (offered true) (hand_over rest t a q)
  offer_open (none, rest) cb a q =
      if ltb (size q) q.capacity
      then (let q1 = push_item a q in
          call cb (offered true) (record q1 { accepted = q1.accepted + 1 }))
      else offer_when_full q.strategy cb a q

  unfoldable pub offer : ℕ → A → Queue A → Queue A
  offer cb a q =
      let q1 = record q { offered = q.offered + 1 } in
      if q1.closed
      then call cb (offered false) (record q1 { dropped = q1.dropped + 1 })
      else offer_open (LinkedQueue.shift q1.takers) cb a q1

  -- The canceler of an offer that waits at `node`.
  abbrev pub stop_waiting_offer : ℕ → Option (OfferWaiter A) → Queue A → Queue A
  stop_waiting_offer node none q = record q { offer_waiters = remove node q.offer_waiters }
  stop_waiting_offer node (some w) q =
      let q1 = record_offer_wait now w.started_at q in
      record q1 {
        cancelled_offers = q1.cancelled_offers + 1;
        offer_waiters = remove node q1.offer_waiters;
      }

  unfoldable pub cancel_offer : ℕ → Queue A → Queue A
  cancel_offer node q = stop_waiting_offer node (linked node q.offer_waiters.nodes) q

  abbrev pub batch_when_full : Strategy → A → Queue A → Bool × Queue A
  batch_when_full dropping a q = (false, record q { dropped = q.dropped + 1 })
  batch_when_full sliding a q =
      let q1 = push_item a (shift_item q).1 in
      (true, record q1 { accepted = q1.accepted + 1; slid = q1.slid + 1 })
  batch_when_full backpressure a q = (false, record q { dropped = q.dropped + 1 })

  abbrev pub batch_open : Option Taker × LinkedQueue Taker → A → Queue A → Bool × Queue A
  batch_open (some t, rest) a q = (true, hand_over rest t a q)
  batch_open (none, rest) a q =
      if ltb (size q) q.capacity
      then (let q1 = push_item a q in (true, record q1 { accepted = q1.accepted + 1 }))
      else batch_when_full q.strategy a q

  -- One turn of the loop of `offerBatch`: what it adds to `results`, and the queue.
  unfoldable pub batch_one : A → Queue A → Bool × Queue A
  batch_one a q =
      if q.closed
      then (false, record q { dropped = q.dropped + 1 })
      else batch_open (LinkedQueue.shift q.takers) a q

  unfoldable pub batch_loop : List A → Queue A → List Bool × Queue A
  batch_loop [] q = ([], q)
  batch_loop (a ∷ values) q =
      let (result, q1) = batch_one a q in
      let (results, q2) = batch_loop values q1 in (result ∷ results, q2)

  unfoldable pub offer_batch : List A → Queue A → List Bool × Queue A
  unfolding batch_loop
  offer_batch values q = batch_loop values (record q { offered = q.offered + length values })
