-- ===== src/Queue/Order.antt =====
-- Values leave a queue in the order in which they were offered.
use mathlib.Core.List.{append_assoc, append-nil}
use brass_runtime.Base.{
  ℕ, ◌+◌, ◌≤◌, ◌<◌, Bool, true, false, List, [], ◌∷◌, ◌++◌, Option, some, length, ltb, ltb→lt, ◌≡◌,
  ◌≢◌, refl, sym, ap, ◌∙◌, arith, inl, inr, either_branch,
}
use mathlib.Core.Path.{ap₂}
use brass_runtime.Ring.{bounded_shift}
use brass_runtime.Ring.Valid.{contents}
use brass_runtime.Ring.Valid
use brass_runtime.LinkedQueue.{shift_nodes}
use brass_runtime.Queue.{
  Queue, Strategy, backpressure, dropping, sliding, OfferWaiter, Taker, Reply, offered, got, size,
  call, push_item,
}
use brass_runtime.Queue.Offer.{offer, offer_open, offer_when_full}
use brass_runtime.Queue.Take.{admit, refill, take_from_offers, take}
use brass_runtime.Queue.Valid.{IsValid}
use brass_runtime.Queue.Items.{push-Holds, shift-Holds}

opposite : (b : Bool) → b ≡ true → b ≡ false → ⊥
opposite b e o = cc

module _ {A : Type 0} where
  abbrev pub values_of : List (ℕ × OfferWaiter A) → List (Option A)
  values_of [] = []
  values_of ((node, w) ∷ rest) = some w.a ∷ values_of rest

  -- The values that takes are still to get: those in the buffer, then those of the offers that wait.
  abbrev pub pending : Queue A → List (Option A)
  pending q = contents q.items.inner ++ values_of q.offer_waiters.nodes

  values_of-snoc :
      (ws : List (ℕ × OfferWaiter A)) (node : ℕ) (w : OfferWaiter A)
      → values_of (ws ++ ((node, w) ∷ [])) ≡ values_of ws ++ (some w.a ∷ [])
  values_of-snoc [] node w = refl
  values_of-snoc ((other, x) ∷ ws) node w = ap (◌∷◌ (some x.a)) (values_of-snoc ws node w)

  none_held : (q : Queue A) → size q ≡ 0 → contents q.items.inner ≡ []
  none_held q e = simp e refl

  -- What a take does to the values to be taken: the oldest goes to the callback.
  abbrev pub TakesFirst : ℕ → Queue A → Queue A → Type 0
  TakesFirst cb q q' =
      (x : Option A) × (pending q ≡ x ∷ pending q')
      × (earlier : List (ℕ × Reply A)) × (later : List (ℕ × Reply A)) × (q'.log
          ≡ (q.log ++ earlier) ++ ((cb, got x) ∷ later))

module _ {A : Type 0} (now : ℕ → ℕ) where
  admit-pending :
      (ws : List (ℕ × OfferWaiter A)) (q : Queue A)
      → Valid.IsValid q.items.inner
      → q.capacity ≤ q.items.inner.max_cap
      → size q < q.capacity
      → q.offer_waiters.nodes ≡ ws
      → pending (admit now (shift_nodes ws q.offer_waiters.made) q) ≡ pending q
  admit-pending [] q v r h e = refl
  admit-pending ((node, w) ∷ rest) q v r h e =
      let p = push-Holds w.a q.items v (omega arith) in
      ap (λ c. c ++ values_of rest) p.held
      ∙ append_assoc (contents q.items.inner) (some w.a ∷ []) (values_of rest)
      ∙ ap (λ ws. contents q.items.inner ++ values_of ws) (sym e)

  admit-log :
      (ws : List (ℕ × OfferWaiter A)) (q : Queue A) (made : ℕ)
      → (later : List (ℕ × Reply A)) × ((admit now (shift_nodes ws made) q).log ≡ q.log ++ later)
  admit-log [] q made = ([], sym (append-nil q.log))
  admit-log ((node, w) ∷ rest) q made = ((w.cb, offered true) ∷ [], refl)

  refill-first :
      (cb : ℕ) (q q1 : Queue A) (x : Option A)
      → Valid.IsValid q1.items.inner
      → q1.capacity ≤ q1.items.inner.max_cap
      → pending q ≡ x ∷ pending q1
      → q1.log ≡ q.log ++ ((cb, got x) ∷ [])
      → TakesFirst cb q (refill now q1)
  refill-first cb q q1 x v r e l =
      either_branch (TakesFirst cb q) (ltb (size q1) q1.capacity)
        (λ h.
          let (later, m) = admit-log q1.offer_waiters.nodes q1 q1.offer_waiters.made in
          (
            x,
            e ∙ ap (◌∷◌ x) (sym (admit-pending q1.offer_waiters.nodes q1 v r (ltb→lt _ _ h) refl)),
            [],
            later,
            m
                ∙ ap (λ t. t ++ later) l
                ∙ append_assoc q.log ((cb, got x) ∷ []) later
                ∙ ap (λ t. t ++ ((cb, got x) ∷ later)) (sym (append-nil q.log)),
          ))
        (λ _. (x, e, [], [], l ∙ ap (λ t. t ++ ((cb, got x) ∷ [])) (sym (append-nil q.log))))

  from_offers-first :
      (ws : List (ℕ × OfferWaiter A)) (cb : ℕ) (q : Queue A)
      → ltb 0 (size q) ≡ false
      → q.offer_waiters.nodes ≡ ws
      → pending q ≢ []
      → TakesFirst cb q (take_from_offers now (shift_nodes ws q.offer_waiters.made) cb q)
  from_offers-first [] cb q h e n =
      absurd (n (ap₂ ◌++◌ (none_held q (ground arith)) (ap values_of e)))
  from_offers-first ((node, w) ∷ rest) cb q h e n = (
    some w.a,
    ap₂ ◌++◌ (none_held q (ground arith)) (ap values_of e)
        ∙ ap (◌∷◌ (some w.a)) (ap (λ c. c ++ values_of rest) (sym (none_held q (ground arith)))),
    (w.cb, offered true) ∷ [],
    [],
    refl,
  )

  -- On a well-formed queue that has values to be taken, in the buffer or of waiting offers, `take`
  -- gives the oldest to its callback, and the others stay to be taken, in their order.
  pub take_fifo :
      (cb : ℕ) (q : Queue A) → IsValid q → pending q ≢ [] → TakesFirst cb q (take now cb q)
  unfolding take
  take_fifo cb q v n =
      let q1 = record q { take_calls = q.take_calls + 1 } in
      either_branch (TakesFirst cb q) (ltb 0 (size q))
        {x = refill now (
          call cb (got (bounded_shift q.items).0)
            (record q1 { items = (bounded_shift q.items).1; taken = q.taken + 1 }))}
        (λ h.
          let (_, split, f) = shift-Holds q.items v.ring (ltb→lt _ _ h) in
          refill-first cb q _ (bounded_shift q.items).0 f.ring (omega (arith, f.bounded, v.room))
            (ap (λ c. c ++ values_of q.offer_waiters.nodes)
              (split ∙ ap (◌∷◌ (bounded_shift q.items).0) (sym f.held)))
            refl)
        (λ h. from_offers-first q.offer_waiters.nodes cb q1 h refl n)

  no_waiters : (ws : List (ℕ × OfferWaiter A)) → length ws ≡ 0 → values_of ws ≡ []
  no_waiters [] e = refl
  no_waiters (w ∷ ws) e = absurd (omega arith)

  into_buffer-last :
      (a : A) (q : Queue A)
      → IsValid q
      → size q < q.capacity
      → pending (push_item a q) ≡ pending q ++ (some a ∷ [])
  into_buffer-last a q v h =
      let c = contents q.items.inner in
      let p = push-Holds a q.items v.ring (omega (arith, v.room)) in
      let none_waits =
        no_waiters q.offer_waiters.nodes
          (elim v.offers_wait [ inl z ↦ z | inr z ↦ absurd (omega arith) ]) in
      ap₂ ◌++◌ p.held none_waits
      ∙ append-nil (c ++ (some a ∷ []))
      ∙ ap (λ t. t ++ (some a ∷ [])) (sym (append-nil c) ∙ ap (λ t. c ++ t) (sym none_waits))

  full-last :
      (s : Strategy) (cb : ℕ) (a : A) (q : Queue A)
      → s ≡ backpressure
      → pending (offer_when_full now s cb a q) ≡ pending q ++ (some a ∷ [])
  full-last dropping cb a q e = cc
  full-last sliding cb a q e = cc
  full-last backpressure cb a q e =
      ap (λ t. contents q.items.inner ++ t)
        (values_of-snoc q.offer_waiters.nodes q.offer_waiters.made
          (record { a = a; started_at = now q.readings; cb = cb }))
      ∙ sym (append_assoc (contents q.items.inner) (values_of q.offer_waiters.nodes) (some a ∷ []))

  open-last :
      (ts : List (ℕ × Taker)) (cb : ℕ) (a : A) (q : Queue A)
      → IsValid q
      → q.strategy ≡ backpressure
      → ts ≡ []
      → pending (
          offer_open now (shift_nodes ts q.takers.made) cb a (record q { offered = q.offered + 1 }))
        ≡ pending q ++ (some a ∷ [])
  open-last (t ∷ ts) cb a q v s e = cc
  open-last [] cb a q v s e =
      either_branch (λ (q' : Queue A). pending q' ≡ pending q ++ (some a ∷ []))
        (ltb (size q) q.capacity) (λ h. into_buffer-last a q v (ltb→lt _ _ h))
        (λ h. full-last q.strategy cb a (record q { offered = q.offered + 1 }) s)

  -- A well-formed open queue with the strategy of back pressure, for which no take waits, has an
  -- offered value as its last, whether the offer succeeds or waits.
  pub offer_fifo :
      (cb : ℕ) (a : A) (q : Queue A)
      → IsValid q
      → q.closed ≡ false
      → q.strategy ≡ backpressure
      → q.takers.nodes ≡ []
      → pending (offer now cb a q) ≡ pending q ++ (some a ∷ [])
  unfolding offer
  offer_fifo cb a q v o s t =
      either_branch (λ (q' : Queue A). pending q' ≡ pending q ++ (some a ∷ [])) q.closed
        (λ shut. absurd (opposite q.closed shut o)) (λ _. open-last q.takers.nodes cb a q v s t)
