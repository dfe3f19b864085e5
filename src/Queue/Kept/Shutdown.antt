-- ===== src/Queue/Kept/Shutdown.antt =====
-- `shutdown` keeps a queue well-formed, and so does any sequence of operations.
use brass_runtime.Base.{
  ℕ, ◌+◌, ◌≤◌, ◌<◌, true, List, [], ◌∷◌, length, ◌≡◌, ◌≢◌, refl, ap, arith, inl, inr, ◌⊎◌,
  either_branch,
}
use brass_runtime.Ring.Valid
use brass_runtime.Ring.{bounded_clear}
use brass_runtime.Queue.{Queue, sliding, OfferWaiter, Taker, size, waiting_offers}
use brass_runtime.Queue.Take.{fail_takers, release_offers, shutdown}
use brass_runtime.Queue.Valid.{IsValid}
use brass_runtime.Queue.Items.{clear-Holds}

module _ {A : Type 0} (now : ℕ → ℕ) where
  -- A queue in the middle of `shutdown`, which is `closed` and whose waiters go one by one.
  record IsClosing (takers : List (ℕ × Taker)) (offers : List (ℕ × OfferWaiter A)) (q : Queue A)
      : Type 0 where
    ring : Valid.IsValid q.items.inner
    room : q.capacity ≤ q.items.inner.max_cap
    slides : (q.strategy ≢ sliding) ⊎ (0 < q.capacity)
    takers_left : q.takers.nodes ≡ takers
    offers_left : q.offer_waiters.nodes ≡ offers
    offers_counted : q.offered ≡ q.accepted + q.dropped + q.cancelled_offers + waiting_offers q
    values_counted : q.accepted ≡ q.taken + q.slid + q.discarded_on_shutdown + size q

  takers_failed :
      (ts : List (ℕ × Taker)) (ws : List (ℕ × OfferWaiter A)) (q : Queue A)
      → IsClosing ts ws q
      → IsClosing [] ws (fail_takers now ts q)
  unfolding fail_takers
  takers_failed [] ws q v = v
  takers_failed ((node, t) ∷ rest) ws q v = takers_failed rest ws _ (record {
    ring = v.ring;
    room = v.room;
    slides = v.slides;
    takers_left = refl;
    offers_left = v.offers_left;
    offers_counted = v.offers_counted;
    values_counted = v.values_counted;
  })

  offers_released :
      (ws : List (ℕ × OfferWaiter A)) (q : Queue A)
      → IsClosing [] ws q
      → IsClosing [] [] (release_offers now ws q)
  unfolding release_offers
  offers_released [] q v = v
  offers_released ((node, w) ∷ rest) q v =
      let l = ap (length {A = ℕ × OfferWaiter A}) v.offers_left in
      offers_released rest _ (record {
        ring = v.ring;
        room = v.room;
        slides = v.slides;
        takers_left = v.takers_left;
        offers_left = refl;
        offers_counted = omega (arith, l, v.offers_counted);
        values_counted = v.values_counted;
      })

  discarded_kept :
      (q : Queue A)
      → IsClosing [] [] q
      → IsValid (record q {
        discarded_on_shutdown = q.discarded_on_shutdown + size q;
        items = bounded_clear q.items;
      })
  discarded_kept q v =
      let c = clear-Holds q.items v.ring in
      let no_offers = ap (length {A = ℕ × OfferWaiter A}) v.offers_left in
      let no_takers = ap (length {A = ℕ × Taker}) v.takers_left in
      record {
        ring = c.ring;
        room = omega (arith, c.bounded, v.room);
        bound = omega (arith, c.sized);
        slides = v.slides;
        takers_wait = inl no_takers;
        offers_wait = inl no_offers;
        after_close = inr (c.sized, no_offers, no_takers);
        offers_counted = omega (arith, v.offers_counted);
        values_counted = omega (arith, c.sized, v.values_counted);
      }

  closing :
      (q : Queue A)
      → IsValid q
      → IsClosing q.takers.nodes q.offer_waiters.nodes (record q { closed = true })
  closing q v = record {
    ring = v.ring;
    room = v.room;
    slides = v.slides;
    takers_left = refl;
    offers_left = refl;
    offers_counted = omega (arith, v.offers_counted);
    values_counted = v.values_counted;
  }

  all_left :
      (q : Queue A) (ws : List (ℕ × OfferWaiter A))
      → IsClosing [] ws q
      → IsClosing [] q.offer_waiters.nodes q
  all_left q ws v = record {
    ring = v.ring;
    room = v.room;
    slides = v.slides;
    takers_left = v.takers_left;
    offers_left = refl;
    offers_counted = v.offers_counted;
    values_counted = v.values_counted;
  }

  -- `shutdown` keeps a queue well-formed.
  pub shutdown-IsValid : (q : Queue A) → IsValid q → IsValid (shutdown now q)
  unfolding shutdown
  shutdown-IsValid q v =
      either_branch IsValid q.closed (λ _. v)
        λ _.
          let q1 = fail_takers now q.takers.nodes (record q { closed = true }) in
          let f =
            takers_failed q.takers.nodes q.offer_waiters.nodes (record q { closed = true })
              (closing q v) in
          discarded_kept _ (offers_released q1.offer_waiters.nodes q1 (all_left q1 _ f))
