-- ===== src/Queue/Valid.antt =====
-- When the fields of a queue fit together.
use brass_runtime.Base.{ℕ, ◌+◌, ◌≤◌, ◌<◌, false, ◌≡◌, ◌≢◌, ◌⊎◌}
use brass_runtime.Ring.Valid
use brass_runtime.Queue.{Queue, sliding, size, waiting_offers, waiting_takers}

module _ {A : Type 0} where
  -- The buffer is a valid ring buffer that has room for `capacity` values, and holds no more. Takes
  -- wait only while nothing is there to take, offers only while the buffer is full, and neither
  -- after `shutdown`, which leaves the buffer empty. Every offer but `n` is accepted, dropped,
  -- cancelled or waits, and every accepted value is taken, slid out, discarded or in the buffer.
  pub record IsOwing (n : ℕ) (q : Queue A) : Type 0 where
    pub ring : Valid.IsValid q.items.inner
    pub room : q.capacity ≤ q.items.inner.max_cap
    pub bound : size q ≤ q.capacity
    pub slides : (q.strategy ≢ sliding) ⊎ (0 < q.capacity)
    pub takers_wait : (waiting_takers q ≡ 0) ⊎ ((size q ≡ 0) × (waiting_offers q ≡ 0))
    pub offers_wait : (waiting_offers q ≡ 0) ⊎ (size q ≡ q.capacity)
    pub after_close :
        (q.closed ≡ false) ⊎ ((size q ≡ 0) × (waiting_offers q ≡ 0) × (waiting_takers q ≡ 0))
    pub offers_counted :
        q.offered ≡ q.accepted + q.dropped + q.cancelled_offers + waiting_offers q + n
    pub values_counted : q.accepted ≡ q.taken + q.slid + q.discarded_on_shutdown + size q

  -- No offer is left out.
  abbrev pub IsValid : Queue A → Type 0
  IsValid q = IsOwing 0 q
