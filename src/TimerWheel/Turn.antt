-- ===== src/TimerWheel/Turn.antt =====
-- When the entries of a slot have their turn.
use brass_runtime.Base.{
  ℕ, suc, ◌+◌, ◌-◌, ◌<◌, Bool, true, false, List, [], ◌∷◌, ◌==◌, ◌≡◌, ◌⊎◌, inl, inr, arith,
  Bool-cases, ap, sym, subst, ◌∙◌,
}
use brass_runtime.TimerWheel.{Entry, TimerWheel, masked, is_due, due, thrown, count, tick, turn}
use brass_runtime.TimerWheel.Expiry.{
  Among, contrary, pushed-Among, pushed-from, left_over-Among, left_over-gone, due-Among, due-from,
  thrown-from,
}
use brass_runtime.TimerWheel.Ticks.{
  IsSized, ahead, gap, next_slot, gap-apart, whole_turn, clash, stayed, tick-IsSized, tick-apart,
  turn-apart, tick-reached,
}

-- An entry is the only one with its number, in its slot and in all others, and its callback has not
-- been called.
pub record IsOnly (e : Entry) (s : ℕ) (w : TimerWheel) : Type 0 where
  pub only : (j : ℕ) (x : Entry) → Among x (w.wheel j) → x.id ≡ e.id → (j ≡ s) × (x ≡ e)
  pub unfired : ¬ Among e.id w.fired

module _ (throws : ℕ → Bool) where
  -- What the tick that reaches the slot of an entry of `w` does to it.
  abbrev pub Reached : ℕ → ℕ → Entry → TimerWheel → TimerWheel → Type 0
  Reached now s e w after =
      (is_due now e ≡ true)
        × (Among e.id after.fired × ¬ Among e (after.wheel s)
            ⊎ (x : Entry) × Among x (w.wheel s) × (is_due now x ≡ true) × (throws x.id ≡ true))
      ⊎ (is_due now e ≡ false) × ¬ Among e.id after.fired × Among e (after.wheel s)

  -- A tick that does not reach the slot of an entry leaves the entry the only one with its number,
  -- and does not call its callback.
  tick-IsOnly :
      (now g s : ℕ) (e : Entry) (w : TimerWheel)
      → IsSized w
      → s < w.slots
      → ahead w s ≡ suc (suc g)
      → IsOnly e s w
      → IsOnly e s (tick throws now w)
  unfolding tick
  tick-IsOnly now g s e w z l h o =
      let (k, p) = z.power in
      let slot = masked (w.current_tick + 1) w.slots in
      let apart : (s == slot) ≡ false =
        subst (λ x. (s == x) ≡ false) (sym (next_slot k w.slots w.current_tick p z.inside))
          (gap-apart w.slots w.current_tick s g z.inside l h) in
      record {
        only = λ j x m q. o.only j x (stayed throws now w j x m) q;
        unfired = λ m. elim (pushed-from e.id (due throws now (w.wheel slot)) w.fired m) [
          | inl called ↦
              let (x, there, q, _) = due-from throws now e.id (w.wheel slot) called in
              clash s slot (sym (o.only slot x there q).0) apart
          | inr before ↦ o.unfired before
        ];
      }

  pub turn-IsOnly :
      (times : List ℕ) (g s : ℕ) (e : Entry) (w : TimerWheel)
      → IsSized w
      → s < w.slots
      → ahead w s ≡ suc (count times + g)
      → IsOnly e s w
      → IsOnly e s (turn throws times w)
  unfolding turn
  turn-IsOnly [] g s e w z l h o = o
  turn-IsOnly (now ∷ times) g s e w z l h o =
      let gap : ahead w s ≡ suc (suc (count times + g)) = omega (arith, h) in
      let (kept, nearer) = tick-apart throws now (count times + g) s w z l gap in
      turn-IsOnly times g s e (tick throws now w) (tick-IsSized throws now w z) l nearer
        (tick-IsOnly now (count times + g) s e w z l gap o)

  -- And so does the tick that reaches its slot before its deadline.
  early-IsOnly :
      (now s : ℕ) (e : Entry) (w : TimerWheel)
      → IsSized w
      → s < w.slots
      → ahead w s ≡ 1
      → is_due now e ≡ false
      → IsOnly e s w
      → IsOnly e s (tick throws now w)
  unfolding tick
  early-IsOnly now s e w z l h f o =
      let slot = masked (w.current_tick + 1) w.slots in
      record {
        only = λ j x m q. o.only j x (stayed throws now w j x m) q;
        unfired = λ m. elim (pushed-from e.id (due throws now (w.wheel slot)) w.fired m) [
          | inl called ↦
              let (x, there, q, d) = due-from throws now e.id (w.wheel slot) called in
              contrary (is_due now x) (is_due now e) (ap (is_due now) (o.only slot x there q).1) d f
          | inr before ↦ o.unfired before
        ];
      }

  -- Until the slot of an entry is reached, nothing happens to it. The tick that reaches it calls
  -- its callback and takes it out, if its deadline is over and no due callback of the slot
  -- throws; if its deadline is not over, its callback is not called and it stays in the slot.
  -- The entry is the only one with its number, and its callback has not been called before.
  pub turn_once :
      (times : List ℕ) (now s : ℕ) (e : Entry) (w : TimerWheel)
      → IsSized w
      → s < w.slots
      → Among e (w.wheel s)
      → IsOnly e s w
      → ahead w s ≡ suc (count times)
      → ((turn throws times w).wheel s ≡ w.wheel s)
        × ¬ Among e.id (turn throws times w).fired
        × Reached now s e w (tick throws now (turn throws times w))
  turn_once times now s e w z l m o h =
      let due_time : ahead w s ≡ suc (count times + 0) = omega (arith, h) in
      let (z2, same, near, n) = turn-apart throws times 0 s w z l due_time in
      let o2 = turn-IsOnly times 0 s e w z l due_time o in
      let inside = subst (λ x. s < x) (sym n) l in
      let (at, left, fired) = tick-reached throws now s (turn throws times w) z2 inside near in
      let there = subst (Among e) (sym same) m in
      (
        same,
        o2.unfired,
        elim (Bool-cases (is_due now e)) [
          | inl t ↦ elim (Bool-cases (thrown throws now (w.wheel s))) [
            | inl threw ↦ inl (t, inr (thrown-from throws now (w.wheel s) threw))
            | inr calm ↦
                let calm2 = subst (λ es. thrown throws now es ≡ false) (sym same) calm in
                inl (
                  t,
                  inl (
                    subst (Among e.id) (sym fired)
                        (pushed-Among e.id _ _ (due-Among throws now e _ t calm2 there)),
                    λ stays. left_over-gone throws now e _ t calm2 (subst (Among e) left stays),
                  ),
                )
          ]
          | inr f ↦ inr (
            f,
            (early-IsOnly now s e (turn throws times w) z2 inside near f o2).unfired,
            subst (Among e) (sym left) (left_over-Among throws now e _ f there),
          )
        ],
      )

  -- An entry whose deadline is not over when its slot is reached is not served before a whole turn
  -- of the wheel, whatever the times of the ticks: after fewer ticks than there are slots its
  -- callback has not been called, and it is where it was. It is the only one with its number, and
  -- its callback has not been called before.
  pub missed_waits :
      (times : List ℕ) (now s : ℕ) (e : Entry) (w : TimerWheel)
      → IsSized w
      → s < w.slots
      → Among e (w.wheel s)
      → IsOnly e s w
      → ahead w s ≡ 1
      → is_due now e ≡ false
      → count times < w.slots
      → ¬ Among e.id (turn throws times (tick throws now w)).fired
        × Among e ((turn throws times (tick throws now w)).wheel s)
  unfolding tick
  missed_waits times now s e w z l m o h f short =
      let (at, left, fired) = tick-reached throws now s w z l h in
      let whole : ahead (tick throws now w) s ≡ suc (count times + (w.slots - suc (count times))) =
        ap (λ x. gap w.slots x s) at ∙ whole_turn w.slots s (count times) short in
      let (z2, same, r, q) =
        turn-apart throws times (w.slots - suc (count times)) s (tick throws now w)
          (tick-IsSized throws now w z) l whole in
      (
        (turn-IsOnly times (w.slots - suc (count times)) s e (tick throws now w)
            (tick-IsSized throws now w z) l whole (early-IsOnly now s e w z l h f o)).unfired,
        subst (Among e) (sym (same ∙ left)) (left_over-Among throws now e _ f m),
      )
