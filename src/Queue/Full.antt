-- ===== src/Queue/Full.antt =====
-- What an offer does when a take waits, and when the buffer is full.
use brass_runtime.Base.{
  ℕ, ◌+◌, ◌≤◌, ◌<◌, Bool, true, false, List, [], ◌∷◌, ◌++◌, Option, some, ltb, ltb→lt, ◌≡◌, refl,
  sym, ap, ◌∙◌, arith, inl, inr, either_branch, subst,
}
use brass_runtime.Ring.Valid.{contents}
use brass_runtime.LinkedQueue.{shift_nodes}
use brass_runtime.Queue.{
  Queue, Strategy, backpressure, dropping, sliding, Taker, offered, got, size, shift_item,
}
use brass_runtime.Queue.Offer.{offer, offer_open, offer_when_full}
use brass_runtime.Queue.Valid.{IsValid}
use brass_runtime.Queue.Items.{push-Holds, shift-Holds}

opposite : (b : Bool) → b ≡ true → b ≡ false → ⊥
opposite b e o = cc

module _ {A : Type 0} where
  -- What a strategy does with an offer for which there is no room: it fails and changes no value; or
  -- it succeeds and takes the place of the oldest value; or it waits behind the others.
  abbrev pub Overflows : Strategy → ℕ → A → Queue A → Queue A → Type 0
  Overflows dropping cb a q q' =
      (contents q'.items.inner ≡ contents q.items.inner)
      × (q'.offer_waiters ≡ q.offer_waiters)
      × (q'.log ≡ q.log ++ ((cb, offered false) ∷ []))
  Overflows sliding cb a q q' =
      (oldest : Option A) × (others : List (Option A)) × (contents q.items.inner ≡ oldest ∷ others)
      × (contents q'.items.inner ≡ others ++ (some a ∷ []))
      × (q'.offer_waiters ≡ q.offer_waiters)
      × (q'.log ≡ q.log ++ ((cb, offered true) ∷ []))
  Overflows backpressure cb a q q' =
      (contents q'.items.inner ≡ contents q.items.inner)
      × (t : ℕ) × (q'.offer_waiters.nodes
          ≡ q.offer_waiters.nodes
            ++ ((q.offer_waiters.made, record { a = a; started_at = t; cb = cb }) ∷ []))
      × (q'.log ≡ q.log)

module _ {A : Type 0} (now : ℕ → ℕ) where
  overflow :
      (s : Strategy) (cb : ℕ) (a : A) (q : Queue A)
      → IsValid q
      → q.strategy ≡ s
      → q.capacity ≤ size q
      → Overflows s cb a q (offer_when_full now s cb a (record q { offered = q.offered + 1 }))
  overflow dropping cb a q v e h = (refl, refl, refl)
  overflow backpressure cb a q v e h = (refl, now q.readings, refl, refl)
  overflow sliding cb a q v e h =
      let some_room : 0 < q.capacity = elim v.slides [ inl n ↦ absurd (n e) | inr p ↦ p ] in
      let (others, split, f) = shift-Holds q.items v.ring (omega arith) in
      let p =
        push-Holds a (shift_item q).1.items f.ring (omega (arith, v.room, f.sized, f.bounded)) in
      ((shift_item q).0, others, split, p.held ∙ ap (λ c. c ++ (some a ∷ [])) f.held, refl, refl)

  open_overflow :
      (ts : List (ℕ × Taker)) (cb : ℕ) (a : A) (q : Queue A)
      → IsValid q
      → ts ≡ []
      → q.capacity ≤ size q
      → Overflows q.strategy cb a q (
          offer_open now (shift_nodes ts q.takers.made) cb a (record q { offered = q.offered + 1 }))
  open_overflow (t ∷ ts) cb a q v e h = cc
  open_overflow [] cb a q v e h =
      either_branch (Overflows q.strategy cb a q) (ltb (size q) q.capacity)
        (λ less. absurd (omega (arith, ltb→lt (size q) q.capacity less)))
        (λ _. overflow q.strategy cb a q v refl h)

  -- An offer to a well-formed open queue that is full and for which no take waits does what the
  -- strategy of the queue says: it is dropped; or the oldest value makes room for it; or it waits
  -- behind the offers that wait.
  pub offer_full :
      (cb : ℕ) (a : A) (q : Queue A)
      → IsValid q
      → q.closed ≡ false
      → q.takers.nodes ≡ []
      → q.capacity ≤ size q
      → Overflows q.strategy cb a q (offer now cb a q)
  unfolding offer
  offer_full cb a q v o t h =
      either_branch (Overflows q.strategy cb a q) q.closed
        (λ shut. absurd (opposite q.closed shut o)) (λ _. open_overflow q.takers.nodes cb a q v t h)

  -- The value goes to this take and to no place else.
  abbrev pub Serves : ℕ → A → Taker → List (ℕ × Taker) → Queue A → Queue A → Type 0
  Serves cb a t rest q q' =
      (q'.takers.nodes ≡ rest)
      × (q'.items ≡ q.items)
      × (q'.log ≡ (q.log ++ ((t.cb, got (some a)) ∷ [])) ++ ((cb, offered true) ∷ []))

  -- An offer to an open queue for which takes wait gives its value to the oldest of them, and the
  -- buffer stays as it is.
  pub offer_served :
      (cb : ℕ) (a : A) (q : Queue A) (node : ℕ) (t : Taker) (rest : List (ℕ × Taker))
      → q.closed ≡ false
      → q.takers.nodes ≡ (node, t) ∷ rest
      → Serves cb a t rest q (offer now cb a q)
  unfolding offer
  offer_served cb a q node t rest o e =
      either_branch (Serves cb a t rest q) q.closed (λ shut. absurd (opposite q.closed shut o))
        (λ _.
          subst
            (λ (ts : List (ℕ × Taker)). Serves cb a t rest q (
              offer_open now (shift_nodes ts q.takers.made) cb a
                (record q { offered = q.offered + 1 })))
            (sym e) (refl, refl, refl))
