-- ===== src/TimerWheel/Timed.antt =====
-- The counters of the wheel, and the timers that it keeps set.
use brass_runtime.Base.{
  ℕ, zero, suc, ◌+◌, ◌-◌, ◌^◌, ◌<◌, ◌≤◌, Bool, true, false, List, [], ◌∷◌, is_some, if◌then◌else◌,
  ◌==◌, ltb, leb, ◌≡◌, inl, inr, refl, arith, Bool-cases, ap, sym, subst, either_branch, length,
}
use brass_runtime.Base.Bits.{bit_and-mod}
use native.Mathlib.Nat.{mod-lt, one-le-pow}
use brass_runtime.Links.{write, write_self, write_ne}
use brass_runtime.TimerWheel.{
  Entry, TimerWheel, masked, left_over, due, thrown, count, tick, fine_tick, schedule,
  schedule_normal, schedule_fine, cancel_normal, cancel_fine, find, unlink, destroy, ensure,
  maybe_stop, ticks_for,
}

-- How many entries the first n slots hold.
abbrev pub total : (ℕ → List Entry) → ℕ → ℕ
total f zero = 0
total f (suc n) = total f n + length (f n)

-- The counters count the linked entries, and a timer is set exactly if there are some.
pub record IsTimed (w : TimerWheel) : Type 0 where
  pub power : (k : ℕ) × (w.slots ≡ 2 ^ k)
  pub counted : w.pending ≡ total w.wheel w.slots
  pub set : w.timer ≡ ltb 0 w.pending
  pub fine_counted : w.fine_pending ≡ length w.fine
  pub fine_set : w.fine_timer ≡ ltb 0 w.fine_pending

total-write_out :
    (f : ℕ → List Entry) (n i : ℕ) (es : List Entry) → n ≤ i → total (write f i es) n ≡ total f n
total-write_out f zero i es l = refl
total-write_out f (suc n) i es l =
    omega
      (arith, total-write_out f n i es (omega arith), ap length (write_ne f i n es (ground arith)))

total-write :
    (f : ℕ → List Entry) (n i : ℕ) (es : List Entry)
    → i < n
    → total (write f i es) n + length (f i) ≡ total f n + length es
total-write f zero i es l = absurd (omega arith)
total-write f (suc n) i es l = elim (Bool-cases (n == i)) [
  | inl t ↦
      let q : n ≡ i = ground arith in
      omega (
        arith,
        total-write_out f n i es (omega (arith, q)),
        ap (λ x. length (write f i es x)) q,
        ap length (write_self f i es),
        ap (λ x. length (f x)) q,
      )
  | inr d ↦ omega (arith, total-write f n i es (ground arith), ap length (write_ne f i n es d))
]

masked-inside : (k n x : ℕ) → n ≡ 2 ^ k → masked x n < n
masked-inside k n x e =
    subst (λ m. masked x m < m) (sym e)
      (subst (λ y. y < 2 ^ k) (sym (bit_and-mod k x)) (mod-lt x (one-le-pow k 2 (omega arith))))

length-left_over :
    (throws : ℕ → Bool) (now : ℕ) (es : List Entry)
    → length (left_over throws now es) + count (due throws now es) ≡ length es
length-left_over throws now [] = refl
length-left_over throws now (e ∷ es) = ground (arith, length-left_over throws now es)

none_thrown :
    (throws : ℕ → Bool) (now : ℕ) (es : List Entry)
    → ((id : ℕ) → throws id ≡ false)
    → thrown throws now es ≡ false
none_thrown throws now [] h = refl
none_thrown throws now (e ∷ es) h = ground (arith, h e.id, none_thrown throws now es h)

length-unlink :
    (id : ℕ) (es : List Entry)
    → is_some (find id es) ≡ true
    → suc (length (unlink id es)) ≡ length es
length-unlink id [] h = absurd (ground (arith, h))
length-unlink id (e ∷ es) h = elim (Bool-cases (e.id == id)) [
  | inl t ↦ simp t refl
  | inr f ↦ simp f (ap suc (length-unlink id es (simp f at h)))
]

-- What the two ways to set a timer come to.
ensured : (p : ℕ) (t : Bool) → ensure (p + 1) t ≡ ltb 0 (p + 1)
ensured p t = ground arith

stopped : (p : ℕ) (t : Bool) → t ≡ ltb 0 p → maybe_stop (p - 1) t ≡ ltb 0 (p - 1)
stopped p t h = ground (arith, h)

schedule_normal-IsTimed :
    (now timeout : ℕ) (w : TimerWheel) → IsTimed w → IsTimed (schedule_normal now timeout w).1
unfolding schedule_normal
schedule_normal-IsTimed now timeout w h =
    let (k, e) = h.power in
    let slot = masked (w.current_tick + ticks_for w.tick_ms timeout) w.slots in
    let inside = masked-inside k w.slots (w.current_tick + ticks_for w.tick_ms timeout) e in
    let more =
      total-write w.wheel w.slots slot ((schedule_normal now timeout w).0 ∷ w.wheel slot) inside in
    record {
      power = h.power;
      counted = omega (arith, h.counted, more);
      set = ensured w.pending w.timer;
      fine_counted = h.fine_counted;
      fine_set = h.fine_set;
    }

schedule_fine-IsTimed :
    (now timeout : ℕ) (w : TimerWheel) → IsTimed w → IsTimed (schedule_fine now timeout w).1
unfolding schedule_fine
schedule_fine-IsTimed now timeout w h = record {
  power = h.power;
  counted = h.counted;
  set = h.set;
  fine_counted = omega (arith, h.fine_counted);
  fine_set = ensured w.fine_pending w.fine_timer;
}

schedule-IsTimed :
    (now timeout : ℕ) (w : TimerWheel) → IsTimed w → IsTimed (schedule now timeout w).1
unfolding schedule
schedule-IsTimed now timeout w h =
    either_branch (λ (r : Entry × TimerWheel). IsTimed r.1) (leb timeout w.fine_threshold_ms)
      (λ _. schedule_fine-IsTimed now timeout w h) (λ _. schedule_normal-IsTimed now timeout w h)

cancel_normal-IsTimed :
    (e : Entry) (w : TimerWheel) → e.slot < w.slots → IsTimed w → IsTimed (cancel_normal e w)
unfolding cancel_normal
cancel_normal-IsTimed e w l h =
    either_branch IsTimed (is_some (find e.id (w.wheel e.slot)))
      (λ t.
        let less = total-write w.wheel w.slots e.slot (unlink e.id (w.wheel e.slot)) l in
        record {
          power = h.power;
          counted = omega (arith, h.counted, less, length-unlink e.id (w.wheel e.slot) t);
          set = stopped w.pending w.timer h.set;
          fine_counted = h.fine_counted;
          fine_set = h.fine_set;
        })
      (λ _. h)

cancel_fine-IsTimed : (e : Entry) (w : TimerWheel) → IsTimed w → IsTimed (cancel_fine e w)
unfolding cancel_fine
cancel_fine-IsTimed e w h =
    either_branch IsTimed (is_some (find e.id w.fine))
      (λ t. record {
        power = h.power;
        counted = h.counted;
        set = h.set;
        fine_counted = omega (arith, h.fine_counted, length-unlink e.id w.fine t);
        fine_set = stopped w.fine_pending w.fine_timer h.fine_set;
      })
      (λ _. h)

module _ (throws : ℕ → Bool) (calm : (id : ℕ) → throws id ≡ false) where
  tick-IsTimed : (now : ℕ) (w : TimerWheel) → IsTimed w → IsTimed (tick throws now w)
  unfolding tick
  tick-IsTimed now w h =
      let (k, e) = h.power in
      let slot = masked (w.current_tick + 1) w.slots in
      let es = w.wheel slot in
      let less =
        total-write w.wheel w.slots slot (left_over throws now es)
          (masked-inside k w.slots (w.current_tick + 1) e) in
      record {
        power = h.power;
        counted = omega (arith, h.counted, less, length-left_over throws now es);
        set =
            ap (λ b. if b then false else ltb 0 (w.pending - count (due throws now es)))
              (none_thrown throws now es calm);
        fine_counted = h.fine_counted;
        fine_set = h.fine_set;
      }

  fine_tick-IsTimed : (now : ℕ) (w : TimerWheel) → IsTimed w → IsTimed (fine_tick throws now w)
  unfolding fine_tick
  fine_tick-IsTimed now w h = record {
    power = h.power;
    counted = h.counted;
    set = h.set;
    fine_counted = omega (arith, h.fine_counted, length-left_over throws now w.fine);
    fine_set =
        ap (λ b. if b then false else ltb 0 (w.fine_pending - count (due throws now w.fine)))
          (none_thrown throws now w.fine calm);
  }

total-empty :
    (f : ℕ → List Entry) (n m : ℕ) → n ≤ m → total (λ i. if ltb i m then [] else f i) n ≡ 0
total-empty f zero m l = refl
total-empty f (suc n) m l =
    let t : ltb n m ≡ true = ground arith in
    omega (arith, total-empty f n m (omega arith), ap (λ b. length (if b then [] else f n)) t)

destroy-IsTimed : (w : TimerWheel) → IsTimed w → IsTimed (destroy w)
unfolding destroy
destroy-IsTimed w h = record {
  power = h.power;
  counted = sym (total-empty w.wheel w.slots w.slots (omega arith));
  set = refl;
  fine_counted = refl;
  fine_set = refl;
}

-- If no callback throws or comes back into the wheel, every operation keeps the counters right and
-- the timers set exactly as long as entries are pending; an entry that is cancelled on the wheel
-- has one of its slots.
pub operations-IsTimed :
    (throws : ℕ → Bool) (now timeout : ℕ) (e : Entry) (w : TimerWheel)
    → ((id : ℕ) → throws id ≡ false)
    → e.slot < w.slots
    → IsTimed w
    → IsTimed (schedule now timeout w).1
      × IsTimed (cancel_normal e w)
      × IsTimed (cancel_fine e w)
      × IsTimed (tick throws now w)
      × IsTimed (fine_tick throws now w)
      × IsTimed (destroy w)
operations-IsTimed throws now timeout e w calm l h = (
  schedule-IsTimed now timeout w h,
  cancel_normal-IsTimed e w l h,
  cancel_fine-IsTimed e w h,
  tick-IsTimed throws calm now w h,
  fine_tick-IsTimed throws calm now w h,
  destroy-IsTimed w h,
)
