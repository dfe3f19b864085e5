-- ===== src/Queue/Kept/Batches.antt =====
-- `offerBatch` and the cancelers of waiting offers and takes keep a queue well-formed.
use brass_runtime.Base.{
  ℕ, suc, ◌+◌, Bool, false, List, [], ◌∷◌, Option, none, some, length, ltb, ltb→lt, ◌≡◌, refl, ap,
  arith, inl, inr, either_branch,
}
use brass_runtime.LinkedQueue.{shift_nodes, linked}
use brass_runtime.LinkedQueue.Unlink.{length-unlink, unlink-removed}
use brass_runtime.Queue.{
  Queue, Strategy, backpressure, dropping, sliding, OfferWaiter, Taker, size, waiting_takers,
}
use brass_runtime.Queue.Offer.{
  batch_when_full, batch_open, batch_one, batch_loop, offer_batch, stop_waiting_offer, cancel_offer,
}
use brass_runtime.Queue.Take.{stop_waiting_take, cancel_take}
use brass_runtime.Queue.Valid.{IsOwing, IsValid}
use brass_runtime.Queue.Kept.Offers.{into_buffer, slide_in, drop_one, hand_over_kept, offered_more}

module _ {A : Type 0} (now : ℕ → ℕ) where
  full_kept :
      (n : ℕ) (s : Strategy) (a : A) (q : Queue A)
      → IsOwing (suc n) q
      → ltb (size q) q.capacity ≡ false
      → waiting_takers q ≡ 0
      → q.closed ≡ false
      → q.strategy ≡ s
      → IsOwing n (batch_when_full now s a q).1
  full_kept n dropping a q v h t o e = drop_one n q v
  full_kept n sliding a q v h t o e = slide_in n a q v h t o e
  full_kept n backpressure a q v h t o e = drop_one n q v

  open_kept :
      (n : ℕ) (ts : List (ℕ × Taker)) (a : A) (q : Queue A)
      → IsOwing (suc n) q
      → q.closed ≡ false
      → q.takers.nodes ≡ ts
      → IsOwing n (batch_open now (shift_nodes ts q.takers.made) a q).1
  open_kept n ((node, t) ∷ rest) a q v o e = hand_over_kept now n node t rest a q v o e
  open_kept n [] a q v o e =
      let none_waits = ap (length {A = ℕ × Taker}) e in
      either_branch (λ (r : Bool × Queue A). IsOwing n r.1) (ltb (size q) q.capacity)
        (λ h. into_buffer n a q v (ltb→lt _ _ h) none_waits o)
        (λ h. full_kept n q.strategy a q v h none_waits o refl)

  one_kept : (n : ℕ) (a : A) (q : Queue A) → IsOwing (suc n) q → IsOwing n (batch_one now a q).1
  unfolding batch_one
  one_kept n a q v =
      either_branch (λ (r : Bool × Queue A). IsOwing n r.1) q.closed (λ _. drop_one n q v)
        (λ o. open_kept n q.takers.nodes a q v o refl)

  loop_kept :
      (values : List A) (q : Queue A)
      → IsOwing (length values) q
      → IsValid (batch_loop now values q).1
  unfolding batch_loop
  loop_kept [] q v = v
  loop_kept (a ∷ values) q v =
      loop_kept values (batch_one now a q).1 (one_kept (length values) a q v)

  -- `offerBatch` keeps a queue well-formed.
  pub offer_batch-IsValid :
      (values : List A) (q : Queue A) → IsValid q → IsValid (offer_batch now values q).1
  unfolding offer_batch
  offer_batch-IsValid values q v =
      loop_kept values (record q { offered = q.offered + length values })
        (offered_more now (length values) q v)

  stop_offer_kept :
      (node : ℕ) (found : Option (OfferWaiter A)) (q : Queue A)
      → IsValid q
      → linked node q.offer_waiters.nodes ≡ found
      → IsValid (stop_waiting_offer now node found q)
  stop_offer_kept node none q v e =
      let same = unlink-removed node q.offer_waiters.nodes e in
      record {
        ring = v.ring;
        room = v.room;
        bound = v.bound;
        slides = v.slides;
        takers_wait = simp same v.takers_wait;
        offers_wait = simp same v.offers_wait;
        after_close = simp same v.after_close;
        offers_counted = simp same v.offers_counted;
        values_counted = v.values_counted;
      }
  stop_offer_kept node (some w) q v e =
      let fewer = length-unlink node q.offer_waiters.nodes w e in
      record {
        ring = v.ring;
        room = v.room;
        bound = v.bound;
        slides = v.slides;
        takers_wait = elim v.takers_wait [ inl z ↦ inl z | inr (z, y) ↦ absurd (omega arith) ];
        offers_wait = elim v.offers_wait [ inl z ↦ absurd (omega arith) | inr z ↦ inr z ];
        after_close = elim v.after_close [ inl z ↦ inl z | inr (z, y, _) ↦ absurd (omega arith) ];
        offers_counted = omega (arith, fewer, v.offers_counted);
        values_counted = v.values_counted;
      }

  -- The canceler of an offer keeps a queue well-formed, whether the offer waits still or not.
  pub cancel_offer-IsValid :
      (node : ℕ) (q : Queue A) → IsValid q → IsValid (cancel_offer now node q)
  unfolding cancel_offer
  cancel_offer-IsValid node q v = stop_offer_kept node (linked node q.offer_waiters.nodes) q v refl

  stop_take_kept :
      (node : ℕ) (found : Option Taker) (q : Queue A)
      → IsValid q
      → linked node q.takers.nodes ≡ found
      → IsValid (stop_waiting_take now node found q)
  stop_take_kept node none q v e =
      let same = unlink-removed node q.takers.nodes e in
      record {
        ring = v.ring;
        room = v.room;
        bound = v.bound;
        slides = v.slides;
        takers_wait = simp same v.takers_wait;
        offers_wait = v.offers_wait;
        after_close = simp same v.after_close;
        offers_counted = v.offers_counted;
        values_counted = v.values_counted;
      }
  stop_take_kept node (some t) q v e =
      let fewer = length-unlink node q.takers.nodes t e in
      record {
        ring = v.ring;
        room = v.room;
        bound = v.bound;
        slides = v.slides;
        takers_wait = elim v.takers_wait [ inl z ↦ absurd (omega arith) | inr z ↦ inr z ];
        offers_wait = v.offers_wait;
        after_close = elim v.after_close [ inl z ↦ inl z | inr (_, _, z) ↦ absurd (omega arith) ];
        offers_counted = v.offers_counted;
        values_counted = v.values_counted;
      }

  -- The canceler of a take keeps a queue well-formed, whether the take waits still or not.
  pub cancel_take-IsValid : (node : ℕ) (q : Queue A) → IsValid q → IsValid (cancel_take now node q)
  unfolding cancel_take
  cancel_take-IsValid node q v = stop_take_kept node (linked node q.takers.nodes) q v refl
