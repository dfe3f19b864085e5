-- ===== src/TimerWheel/Numbers.antt =====
-- The numbers by which the entries of the wheel are known.
use brass_runtime.Base.{
  ℕ, ◌+◌, ◌<◌, List, ◌∷◌, ◌==◌, ◌≡◌, ◌⊎◌, inl, inr, arith, Bool-cases, ap, sym, subst, ◌∙◌,
}
use brass_runtime.Links.{write, write_self, write_ne}
use brass_runtime.TimerWheel.{Entry, TimerWheel, masked, ticks_for, schedule_normal, new_wheel}
use brass_runtime.TimerWheel.Expiry.{Among}
use brass_runtime.TimerWheel.Turn.{IsOnly}
use brass_runtime.Base.{Option}

-- The numbers in use are below the next one.
pub record IsNumbered (w : TimerWheel) : Type 0 where
  pub linked : (j : ℕ) (x : Entry) → Among x (w.wheel j) → x.id < w.made
  pub called : (id : ℕ) → Among id w.fired → id < w.made

pub new_wheel-IsNumbered :
    (tick_ms slots threshold : Option ℕ) → IsNumbered (new_wheel tick_ms slots threshold)
unfolding new_wheel
new_wheel-IsNumbered tick_ms slots threshold = record {
  linked = λ j x m. elim m [ ];
  called = λ id m. elim m [ ];
}

-- What is in a slot after an entry was put at its head.
put_at :
    (f : ℕ → List Entry) (slot j : ℕ) (e x : Entry)
    → Among x (write f slot (e ∷ f slot) j)
    → (j ≡ slot) × (e ≡ x) ⊎ Among x (f j)
put_at f slot j e x m = elim (Bool-cases (j == slot)) [
  | inl t ↦
      let q : j ≡ slot = ground arith in
      elim (subst (Among x) (ap (write f slot (e ∷ f slot)) q ∙ write_self f slot (e ∷ f slot)) m) [
        | inl same ↦ inl (q, same)
        | inr before ↦ inr (subst (λ i. Among x (f i)) (sym q) before)
      ]
  | inr d ↦ inr (subst (Among x) (write_ne f slot j (e ∷ f slot) d) m)
]

pub schedule_normal-IsNumbered :
    (now timeout : ℕ) (w : TimerWheel) → IsNumbered w → IsNumbered (schedule_normal now timeout w).1
unfolding schedule_normal
schedule_normal-IsNumbered now timeout w n =
    let slot = masked (w.current_tick + ticks_for w.tick_ms timeout) w.slots in
    record {
      linked = λ j x m. elim (put_at w.wheel slot j (schedule_normal now timeout w).0 x m) [
        | inl (_, q) ↦ omega (arith, ap (λ (y : Entry). y.id) q)
        | inr before ↦ omega (arith, n.linked j x before)
      ];
      called = λ id m. omega (arith, n.called id m);
    }

pub schedule_normal-IsOnly :
    (now timeout : ℕ) (w : TimerWheel)
    → IsNumbered w
    → IsOnly
        (schedule_normal now timeout w).0
        (schedule_normal now timeout w).0.slot
        (schedule_normal now timeout w).1
unfolding schedule_normal
schedule_normal-IsOnly now timeout w n =
    let slot = masked (w.current_tick + ticks_for w.tick_ms timeout) w.slots in
    record {
      only = λ j x m q. elim (put_at w.wheel slot j (schedule_normal now timeout w).0 x m) [
        | inl (there, same) ↦ (there, sym same)
        | inr before ↦ absurd (omega (arith, n.linked j x before))
      ];
      unfired = λ m. absurd (omega (arith, n.called w.made m));
    }
