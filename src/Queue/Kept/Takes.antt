-- ===== src/Queue/Kept/Takes.antt =====
-- `take` and `takeBatch` keep a queue well-formed.
use brass_runtime.Base.{
  ℕ, zero, suc, ◌+◌, ◌≤◌, ◌<◌, min, false, List, [], ◌∷◌, Option, none, some, length, ltb, ltb→lt,
  ◌≡◌, refl, ap, arith, inl, inr, ◌⊎◌, either_branch, ◌&&◌, ◌==◌,
}
use brass_runtime.Ring.Valid
use brass_runtime.LinkedQueue.{shift_nodes}
use brass_runtime.Queue.{
  Queue, OfferWaiter, Reply, got, size, waiting_offers, waiting_takers, call, shift_item,
}
use brass_runtime.Queue.Take.{
  admit, refill, consume, suspend_take, take_from_offers, take, batch_from_offers, take_one,
  take_loop, take_batch, batch_results,
}
use brass_runtime.Queue.Valid.{IsValid}
use brass_runtime.Queue.Items.{push-Holds, shift-Holds}

module _ {A : Type 0} (now : ℕ → ℕ) where
  -- A queue from whose buffer a value was just taken: at most one more has room.
  record IsShort (q : Queue A) : Type 0 where
    ring : Valid.IsValid q.items.inner
    room : q.capacity ≤ q.items.inner.max_cap
    short : size q < q.capacity
    opened : q.closed ≡ false
    no_takers : waiting_takers q ≡ 0
    offers_wait : (waiting_offers q ≡ 0) ⊎ (suc (size q) ≡ q.capacity)
    offers_counted : q.offered ≡ q.accepted + q.dropped + q.cancelled_offers + waiting_offers q
    values_counted : q.accepted ≡ q.taken + q.slid + q.discarded_on_shutdown + size q

  admit_kept :
      (ws : List (ℕ × OfferWaiter A)) (q : Queue A)
      → IsShort q
      → q.offer_waiters.nodes ≡ ws
      → IsValid (admit now (shift_nodes ws q.offer_waiters.made) q)
  admit_kept [] q v e = record {
    ring = v.ring;
    room = v.room;
    bound = omega (arith, v.short);
    slides = inr (omega (arith, v.short));
    takers_wait = inl v.no_takers;
    offers_wait = inl (ap (length {A = ℕ × OfferWaiter A}) e);
    after_close = inl v.opened;
    offers_counted = omega (arith, v.offers_counted);
    values_counted = v.values_counted;
  }
  admit_kept ((node, w) ∷ rest) q v e =
      let p = push-Holds w.a q.items v.ring (omega (arith, v.room, v.short)) in
      let l = ap (length {A = ℕ × OfferWaiter A}) e in
      record {
        ring = p.ring;
        room = omega (arith, p.bounded, v.room);
        bound = omega (arith, p.sized, v.short);
        slides = inr (omega (arith, v.short));
        takers_wait = inl v.no_takers;
        offers_wait = inr (elim v.offers_wait [
          | inl z ↦ absurd (omega (arith, l, z))
          | inr z ↦ omega (arith, p.sized, z)
        ]);
        after_close = inl v.opened;
        offers_counted = omega (arith, l, v.offers_counted);
        values_counted = omega (arith, p.sized, v.values_counted);
      }

  refill_kept : (q : Queue A) → IsShort q → IsValid (refill now q)
  refill_kept q v =
      either_branch IsValid (ltb (size q) q.capacity)
        (λ _. admit_kept q.offer_waiters.nodes q v refl) (λ h. absurd (ground (arith, v.short)))

  shifted-IsShort :
      (q : Queue A)
      → IsValid q
      → 0 < size q
      → let q1 = (shift_item q).1 in IsShort (record q1 { taken = q1.taken + 1 })
  shifted-IsShort q v h =
      let (_, _, f) = shift-Holds q.items v.ring h in
      record {
        ring = f.ring;
        room = omega (arith, f.bounded, v.room);
        short = omega (arith, f.sized, v.bound);
        opened = elim v.after_close [ inl o ↦ o | inr (z, _, _) ↦ absurd (omega arith) ];
        no_takers = elim v.takers_wait [ inl z ↦ z | inr (z, _) ↦ absurd (omega arith) ];
        offers_wait = elim v.offers_wait [ inl z ↦ inl z | inr z ↦ inr (omega (arith, f.sized)) ];
        offers_counted = omega (arith, v.offers_counted);
        values_counted = omega (arith, f.sized, v.values_counted);
      }

  replied-IsShort : (cb : ℕ) (r : Reply A) (q : Queue A) → IsShort q → IsShort (call cb r q)
  replied-IsShort cb r q v = record {
    ring = v.ring;
    room = v.room;
    short = v.short;
    opened = v.opened;
    no_takers = v.no_takers;
    offers_wait = v.offers_wait;
    offers_counted = v.offers_counted;
    values_counted = v.values_counted;
  }

  consume_kept :
      (node : ℕ) (w : OfferWaiter A) (rest : List (ℕ × OfferWaiter A)) (q : Queue A)
      → IsValid q
      → ltb 0 (size q) ≡ false
      → q.offer_waiters.nodes ≡ (node, w) ∷ rest
      → IsValid (consume now (record { nodes = rest; made = q.offer_waiters.made }) w q)
  consume_kept node w rest q v h e =
      let l = ap (length {A = ℕ × OfferWaiter A}) e in
      let none_held : size q ≡ 0 = ground arith in
      record {
        ring = v.ring;
        room = v.room;
        bound = v.bound;
        slides = v.slides;
        takers_wait = elim v.takers_wait [
          | inl z ↦ inl z
          | inr (z, y) ↦ absurd (omega (arith, l, y))
        ];
        offers_wait = elim v.offers_wait [ inl z ↦ absurd (omega (arith, l, z)) | inr z ↦ inr z ];
        after_close = elim v.after_close [
          | inl o ↦ inl o
          | inr (_, y, _) ↦ absurd (omega (arith, l, y))
        ];
        offers_counted = omega (arith, l, v.offers_counted);
        values_counted = omega (arith, v.values_counted);
      }

  suspended_kept :
      (cb : ℕ) (q : Queue A)
      → IsValid q
      → ltb 0 (size q) ≡ false
      → waiting_offers q ≡ 0
      → q.closed ≡ false
      → IsValid (suspend_take now cb q)
  suspended_kept cb q v h n o = record {
    ring = v.ring;
    room = v.room;
    bound = v.bound;
    slides = v.slides;
    takers_wait = inr (ground arith, n);
    offers_wait = v.offers_wait;
    after_close = inl o;
    offers_counted = v.offers_counted;
    values_counted = v.values_counted;
  }

  -- A change of the log or of the number of calls is no change of what is counted here.
  noted :
      (n : ℕ) (log : List (ℕ × Reply A)) (q : Queue A)
      → IsValid q
      → IsValid (record q { take_calls = n; log = log })
  noted n log q v = record {
    ring = v.ring;
    room = v.room;
    bound = v.bound;
    slides = v.slides;
    takers_wait = v.takers_wait;
    offers_wait = v.offers_wait;
    after_close = v.after_close;
    offers_counted = v.offers_counted;
    values_counted = v.values_counted;
  }

  from_offers_kept :
      (ws : List (ℕ × OfferWaiter A)) (cb : ℕ) (q : Queue A)
      → IsValid q
      → ltb 0 (size q) ≡ false
      → q.offer_waiters.nodes ≡ ws
      → IsValid (take_from_offers now (shift_nodes ws q.offer_waiters.made) cb q)
  from_offers_kept ((node, w) ∷ rest) cb q v h e =
      noted q.take_calls _ (consume now (record { nodes = rest; made = q.offer_waiters.made }) w q)
        (consume_kept node w rest q v h e)
  from_offers_kept [] cb q v h e =
      either_branch IsValid q.closed (λ _. noted q.take_calls _ q v)
        (λ o. suspended_kept cb q v h (ap (length {A = ℕ × OfferWaiter A}) e) o)

  -- `take` keeps a queue well-formed.
  pub take-IsValid : (cb : ℕ) (q : Queue A) → IsValid q → IsValid (take now cb q)
  unfolding take
  take-IsValid cb q v =
      let q1 = record q { take_calls = q.take_calls + 1 } in
      let v1 = noted (q.take_calls + 1) q.log q v in
      let q2 = (shift_item q1).1 in
      either_branch IsValid (ltb 0 (size q))
        (λ h. refill_kept _ (
          replied-IsShort cb (got (shift_item q1).0) (record q2 { taken = q2.taken + 1 })
            (shifted-IsShort q1 v1 (ltb→lt _ _ h))))
        (λ h. from_offers_kept q.offer_waiters.nodes cb q1 v1 h refl)

  batch_from_offers_kept :
      (ws : List (ℕ × OfferWaiter A)) (q : Queue A)
      → IsValid q
      → ltb 0 (size q) ≡ false
      → q.offer_waiters.nodes ≡ ws
      → IsValid (batch_from_offers now (shift_nodes ws q.offer_waiters.made) q).1
  batch_from_offers_kept ((node, w) ∷ rest) q v h e = consume_kept node w rest q v h e
  batch_from_offers_kept [] q v h e = v

  take_one_kept : (q : Queue A) → IsValid q → IsValid (take_one now q).1
  unfolding take_one
  take_one_kept q v =
      either_branch (λ (r : Option (Option A) × Queue A). IsValid r.1) (ltb 0 (size q))
        (λ h. refill_kept _ (shifted-IsShort q v (ltb→lt _ _ h)))
        (λ h. batch_from_offers_kept q.offer_waiters.nodes q v h refl)

  results_kept :
      (found : Option (Option A)) (q : Queue A) (rest : List (Option A) × Queue A)
      → IsValid q
      → IsValid rest.1
      → IsValid (batch_results now found q rest).1
  results_kept none q rest v w = v
  results_kept (some a) q rest v w = w

  take_loop_kept : (n : ℕ) (q : Queue A) → IsValid q → IsValid (take_loop now n q).1
  unfolding take_loop
  take_loop_kept zero q v = v
  take_loop_kept (suc n) q v =
      let w = take_one_kept q v in
      results_kept (take_one now q).0 (take_one now q).1 (take_loop now n (take_one now q).1) w
        (take_loop_kept n (take_one now q).1 w)

  -- `takeBatch` keeps a queue well-formed.
  pub take_batch-IsValid : (n : ℕ) (q : Queue A) → IsValid q → IsValid (take_batch now n q).1
  unfolding take_batch
  take_batch-IsValid n q v =
      let q1 = record q { take_calls = q.take_calls + 1 } in
      let r = take_loop now (min n (size q1 + waiting_offers q1)) q1 in
      let w =
        take_loop_kept (min n (size q1 + waiting_offers q1)) q1
          (noted (q.take_calls + 1) q.log q v) in
      either_branch (λ (p : Option (List (Option A)) × Queue A). IsValid p.1)
        ((length r.0 == 0) && r.1.closed) {x = (none, r.1)} {y = (some r.0, r.1)} (λ _. w) (λ _. w)
