-- ===== src/TimerWheel/Ticks.antt =====
-- What a tick does to a slot that it reaches, and to the others.
use brass_runtime.Base.{
  ℕ, suc, ◌+◌, ◌-◌, ◌%◌, ◌^◌, ◌<◌, Bool, false, List, [], ◌∷◌, if◌then◌else◌, ◌==◌, ltb, ◌≡◌, inl,
  inr, refl, arith, Bool-cases, ap, sym, subst, ◌∙◌,
}
use brass_runtime.Base.Bits.{bit_and-mod}
use native.Mathlib.Nat.{mod-eq_of_lt, mod_self}
use brass_runtime.Links.{write, write_self, write_ne}
use brass_runtime.TimerWheel.{Entry, TimerWheel, masked, left_over, due, count, pushed, tick, turn}
use brass_runtime.TimerWheel.Expiry.{Among, left_over-from}

-- The slots are a power of two, and the current one is among them.
pub record IsSized (w : TimerWheel) : Type 0 where
  pub power : (k : ℕ) × (w.slots ≡ 2 ^ k)
  pub inside : w.current_tick < w.slots

-- How many ticks it takes to reach a slot.
abbrev pub gap : ℕ → ℕ → ℕ → ℕ
gap slots current slot = if ltb current slot then slot - current else (slots + slot) - current

pub next_slot :
    (k n c : ℕ) → n ≡ 2 ^ k → c < n → masked (c + 1) n ≡ (if c + 1 == n then 0 else c + 1)
next_slot k n c e l =
    let m : masked (c + 1) n ≡ (c + 1) % n =
      subst (λ x. masked (c + 1) x ≡ (c + 1) % x) (sym e) (bit_and-mod k (c + 1)) in
    elim (Bool-cases (c + 1 == n)) [
      | inl t ↦ let q : c + 1 ≡ n = ground arith in simp t (m ∙ (ap (λ x. x % n) q ∙ mod_self n))
      | inr f ↦ simp f (m ∙ mod-eq_of_lt (ground arith))
    ]

gap-reached : (n c s : ℕ) → c < n → s < n → gap n c s ≡ 1 → (if c + 1 == n then 0 else c + 1) ≡ s
gap-reached n c s l m h = ground arith

pub gap-apart :
    (n c s g : ℕ)
    → c < n
    → s < n
    → gap n c s ≡ suc (suc g)
    → (s == (if c + 1 == n then 0 else c + 1)) ≡ false
gap-apart n c s g l m h = ground arith

gap-shrinks :
    (n c s g : ℕ)
    → c < n
    → s < n
    → gap n c s ≡ suc (suc g)
    → gap n (if c + 1 == n then 0 else c + 1) s ≡ suc g
gap-shrinks n c s g l m h = ground arith

-- A slot that was just reached is a whole turn away.
pub whole_turn : (n s m : ℕ) → m < n → gap n s s ≡ suc (m + (n - suc m))
whole_turn n s m l = ground arith

-- The gap from the current slot of a wheel.
abbrev pub ahead : TimerWheel → ℕ → ℕ
ahead w s = gap w.slots w.current_tick s

pub clash : (a b : ℕ) → a ≡ b → (a == b) ≡ false → ⊥
clash a b e f = ground arith

module _ (throws : ℕ → Bool) where
  -- An entry that is in a slot after a tick was there before it.
  pub stayed :
      (now : ℕ) (w : TimerWheel) (j : ℕ) (x : Entry)
      → Among x ((tick throws now w).wheel j)
      → Among x (w.wheel j)
  unfolding tick
  stayed now w j x m =
      let slot = masked (w.current_tick + 1) w.slots in
      elim (Bool-cases (j == slot)) [
        | inl t ↦
            let q : j ≡ slot = ground arith in
            subst (λ i. Among x (w.wheel i)) (sym q)
              (left_over-from throws now x (w.wheel slot) (
                subst (Among x)
                  (ap (write w.wheel slot (left_over throws now (w.wheel slot))) q
                    ∙ write_self w.wheel slot (left_over throws now (w.wheel slot)))
                  m))
        | inr d ↦
            subst (Among x) (write_ne w.wheel slot j (left_over throws now (w.wheel slot)) d) m
      ]

  pub tick-IsSized : (now : ℕ) (w : TimerWheel) → IsSized w → IsSized (tick throws now w)
  unfolding tick
  tick-IsSized now w z =
      let (k, e) = z.power in
      record {
        power = z.power;
        inside =
            subst (λ x. x < w.slots) (sym (next_slot k w.slots w.current_tick e z.inside))
              (inside_next w.slots w.current_tick z.inside);
      }
    where
      inside_next : (n c : ℕ) → c < n → (if c + 1 == n then 0 else c + 1) < n
      inside_next n c l = ground arith

  -- A tick that does not reach a slot brings it nearer and leaves its entries.
  pub tick-apart :
      (now g s : ℕ) (w : TimerWheel)
      → IsSized w
      → s < w.slots
      → ahead w s ≡ suc (suc g)
      → ((tick throws now w).wheel s ≡ w.wheel s) × (ahead (tick throws now w) s ≡ suc g)
  unfolding tick
  tick-apart now g s w z l h =
      let (k, e) = z.power in
      let next = next_slot k w.slots w.current_tick e z.inside in
      let apart =
        subst (λ x. (s == x) ≡ false) (sym next)
          (gap-apart w.slots w.current_tick s g z.inside l h) in
      (
        write_ne w.wheel (masked (w.current_tick + 1) w.slots) s
            (left_over throws now (w.wheel (masked (w.current_tick + 1) w.slots))) apart,
        ap (λ x. gap w.slots x s) next ∙ gap-shrinks w.slots w.current_tick s g z.inside l h,
      )

  -- Ticks that do not reach a slot.
  pub turn-apart :
      (times : List ℕ) (g s : ℕ) (w : TimerWheel)
      → IsSized w
      → s < w.slots
      → ahead w s ≡ suc (count times + g)
      → IsSized (turn throws times w)
        × ((turn throws times w).wheel s ≡ w.wheel s)
        × (ahead (turn throws times w) s ≡ suc g)
        × ((turn throws times w).slots ≡ w.slots)
  unfolding turn
  turn-apart [] g s w z l h = (z, refl, omega (arith, h), refl)
  turn-apart (now ∷ times) g s w z l h =
      let (kept, nearer) = tick-apart now (count times + g) s w z l (omega (arith, h)) in
      let (z2, same, there, n) =
        turn-apart times g s (tick throws now w) (tick-IsSized now w z) l nearer in
      (z2, same ∙ kept, there, n)

  -- The tick that reaches a slot.
  pub tick-reached :
      (now s : ℕ) (w : TimerWheel)
      → IsSized w
      → s < w.slots
      → ahead w s ≡ 1
      → ((tick throws now w).current_tick ≡ s)
        × ((tick throws now w).wheel s ≡ left_over throws now (w.wheel s))
        × ((tick throws now w).fired ≡ pushed (due throws now (w.wheel s)) w.fired)
  unfolding tick
  tick-reached now s w z l h =
      let (k, e) = z.power in
      let here : masked (w.current_tick + 1) w.slots ≡ s =
        next_slot k w.slots w.current_tick e z.inside
        ∙ gap-reached w.slots w.current_tick s z.inside l h in
      (
        here,
        ap (λ x. write w.wheel x (left_over throws now (w.wheel x)) s) here
            ∙ write_self w.wheel s (left_over throws now (w.wheel s)),
        ap (λ x. pushed (due throws now (w.wheel x)) w.fired) here,
      )
