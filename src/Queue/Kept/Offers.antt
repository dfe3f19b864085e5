-- ===== src/Queue/Kept/Offers.antt =====
-- `offer` and `offerBatch` keep a queue well-formed.
use brass_runtime.Base.{
  ℕ, suc, ◌+◌, ◌<◌, true, false, List, [], ◌∷◌, length, length-append, ltb, ltb→lt, ◌≡◌, refl, ap,
  arith, inl, inr, either_branch,
}
use brass_runtime.LinkedQueue.{shift_nodes}
use brass_runtime.Queue.{
  Queue, Strategy, backpressure, dropping, sliding, Taker, Reply, offered, size, waiting_offers,
  waiting_takers, call, push_item, shift_item,
}
use brass_runtime.Queue.Offer.{offer, offer_open, offer_when_full, suspend_offer, hand_over}
use brass_runtime.Queue.Valid.{IsOwing, IsValid}
use brass_runtime.Queue.Items.{push-Holds, shift-Holds}

module _ {A : Type 0} where
  pub into_buffer :
      (n : ℕ) (a : A) (q : Queue A)
      → IsOwing (suc n) q
      → size q < q.capacity
      → waiting_takers q ≡ 0
      → q.closed ≡ false
      → let q1 = push_item a q in IsOwing n (record q1 { accepted = q1.accepted + 1 })
  into_buffer n a q v h t o =
      let p = push-Holds a q.items v.ring (omega (arith, v.room)) in
      record {
        ring = p.ring;
        room = omega (arith, p.bounded, v.room);
        bound = omega (arith, p.sized);
        slides = v.slides;
        takers_wait = inl t;
        offers_wait = elim v.offers_wait [ inl e ↦ inl e | inr e ↦ absurd (omega arith) ];
        after_close = inl o;
        offers_counted = omega (arith, v.offers_counted);
        values_counted = omega (arith, p.sized, v.values_counted);
      }

  pub slide_in :
      (n : ℕ) (a : A) (q : Queue A)
      → IsOwing (suc n) q
      → ltb (size q) q.capacity ≡ false
      → waiting_takers q ≡ 0
      → q.closed ≡ false
      → q.strategy ≡ sliding
      → let q1 = push_item a (shift_item q).1 in
        IsOwing n (record q1 { accepted = q1.accepted + 1; slid = q1.slid + 1 })
  slide_in n a q v h t o s =
      let full : q.capacity ≡ size q = ground (arith, v.bound) in
      let some_room : 0 < q.capacity = elim v.slides [ inl n ↦ absurd (n s) | inr p ↦ p ] in
      let (_, _, f) = shift-Holds q.items v.ring (omega arith) in
      let p =
        push-Holds a (shift_item q).1.items f.ring (omega (arith, v.room, f.sized, f.bounded)) in
      record {
        ring = p.ring;
        room = omega (arith, p.bounded, f.bounded, v.room);
        bound = omega (arith, p.sized, f.sized);
        slides = v.slides;
        takers_wait = inl t;
        offers_wait = inr (omega (arith, p.sized, f.sized));
        after_close = inl o;
        offers_counted = omega (arith, v.offers_counted);
        values_counted = omega (arith, p.sized, f.sized, v.values_counted);
      }

  pub drop_one :
      (n : ℕ) (q : Queue A) → IsOwing (suc n) q → IsOwing n (record q { dropped = q.dropped + 1 })
  drop_one n q v = record {
    ring = v.ring;
    room = v.room;
    bound = v.bound;
    slides = v.slides;
    takers_wait = v.takers_wait;
    offers_wait = v.offers_wait;
    after_close = v.after_close;
    offers_counted = omega (arith, v.offers_counted);
    values_counted = v.values_counted;
  }

  module _ (now : ℕ → ℕ) where
    pub hand_over_kept :
        (n node : ℕ) (t : Taker) (rest : List (ℕ × Taker)) (a : A) (q : Queue A)
        → IsOwing (suc n) q
        → q.closed ≡ false
        → q.takers.nodes ≡ (node, t) ∷ rest
        → IsOwing n (hand_over now (record { nodes = rest; made = q.takers.made }) t a q)
    hand_over_kept n node t rest a q v o e =
        let idle : (size q ≡ 0) × (waiting_offers q ≡ 0) = elim v.takers_wait [
          | inl z ↦ absurd (omega (arith, z, ap (length {A = ℕ × Taker}) e))
          | inr z ↦ z
        ] in
        record {
          ring = v.ring;
          room = v.room;
          bound = v.bound;
          slides = v.slides;
          takers_wait = inr idle;
          offers_wait = v.offers_wait;
          after_close = inl o;
          offers_counted = omega (arith, v.offers_counted);
          values_counted = omega (arith, v.values_counted);
        }

    suspended_kept :
        (n cb : ℕ) (a : A) (q : Queue A)
        → IsOwing (suc n) q
        → ltb (size q) q.capacity ≡ false
        → waiting_takers q ≡ 0
        → q.closed ≡ false
        → IsOwing n (suspend_offer now cb a q)
    suspended_kept n cb a q v h t o = record {
      ring = v.ring;
      room = v.room;
      bound = v.bound;
      slides = v.slides;
      takers_wait = inl t;
      offers_wait = inr (ground (arith, v.bound));
      after_close = inl o;
      offers_counted = omega (
        arith,
        v.offers_counted,
        length-append q.offer_waiters.nodes
            ((q.offer_waiters.made, record { a = a; started_at = now q.readings; cb = cb }) ∷ []),
      );
      values_counted = v.values_counted;
    }

    -- A reply changes nothing but the log.
    pub call_kept : (n cb : ℕ) (r : Reply A) (q : Queue A) → IsOwing n q → IsOwing n (call cb r q)
    call_kept n cb r q v = record {
      ring = v.ring;
      room = v.room;
      bound = v.bound;
      slides = v.slides;
      takers_wait = v.takers_wait;
      offers_wait = v.offers_wait;
      after_close = v.after_close;
      offers_counted = v.offers_counted;
      values_counted = v.values_counted;
    }

    full_kept :
        (s : Strategy) (cb : ℕ) (a : A) (q : Queue A)
        → IsOwing 1 q
        → ltb (size q) q.capacity ≡ false
        → waiting_takers q ≡ 0
        → q.closed ≡ false
        → q.strategy ≡ s
        → IsValid (offer_when_full now s cb a q)
    full_kept dropping cb a q v h t o e =
        call_kept 0 cb (offered false) (record q { dropped = q.dropped + 1 }) (drop_one 0 q v)
    full_kept sliding cb a q v h t o e =
        let q1 = push_item a (shift_item q).1 in
        call_kept 0 cb (offered true) (record q1 { accepted = q1.accepted + 1; slid = q1.slid + 1 })
          (slide_in 0 a q v h t o e)
    full_kept backpressure cb a q v h t o e = suspended_kept 0 cb a q v h t o

    open_kept :
        (ts : List (ℕ × Taker)) (cb : ℕ) (a : A) (q : Queue A)
        → IsOwing 1 q
        → q.closed ≡ false
        → q.takers.nodes ≡ ts
        → IsValid (offer_open now (shift_nodes ts q.takers.made) cb a q)
    open_kept ((node, t) ∷ rest) cb a q v o e =
        call_kept 0 cb (offered true)
          (hand_over now (record { nodes = rest; made = q.takers.made }) t a q)
          (hand_over_kept 0 node t rest a q v o e)
    open_kept [] cb a q v o e =
        let none_waits = ap (length {A = ℕ × Taker}) e in
        let q1 = push_item a q in
        either_branch IsValid (ltb (size q) q.capacity)
          (λ h.
            call_kept 0 cb (offered true) (record q1 { accepted = q1.accepted + 1 })
              (into_buffer 0 a q v (ltb→lt _ _ h) none_waits o))
          (λ h. full_kept q.strategy cb a q v h none_waits o refl)

    pub offered_more :
        (n : ℕ) (q : Queue A) → IsValid q → IsOwing n (record q { offered = q.offered + n })
    offered_more n q v = record {
      ring = v.ring;
      room = v.room;
      bound = v.bound;
      slides = v.slides;
      takers_wait = v.takers_wait;
      offers_wait = v.offers_wait;
      after_close = v.after_close;
      offers_counted = omega (arith, v.offers_counted);
      values_counted = v.values_counted;
    }

    -- `offer` keeps a queue well-formed.
    pub offer-IsValid : (cb : ℕ) (a : A) (q : Queue A) → IsValid q → IsValid (offer now cb a q)
    unfolding offer
    offer-IsValid cb a q v =
        let w = offered_more 1 q v in
        let q1 = record q { offered = q.offered + 1 } in
        either_branch IsValid q.closed
          (λ _.
            call_kept 0 cb (offered false) (record q1 { dropped = q1.dropped + 1 })
              (drop_one 0 q1 w))
          (λ o. open_kept q.takers.nodes cb a q1 w o refl)
