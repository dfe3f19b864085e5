-- ===== src/Ring/Made.antt =====
-- The ring buffer that the constructor makes.
use native.Mathlib.Nat.{pow-suc, mod-eq_of_lt, pow-le-pow_right, one-le-pow}
use native.Mathlib.Decide.{dec_lt}
use brass_runtime.Base.{
  ℕ, suc, ◌^◌, ◌≤◌, max, Option, none, length-replicate, length, [], ◌≡◌, refl, sym, ◌∙◌, arith,
}
use brass_runtime.Ring.{next_pow2, make}
use brass_runtime.Ring.Valid.{IsValid, contents}
use brass_runtime.Ring.Smear.{next_pow2-rounds}

pow-order : (i j : ℕ) → 2 ^ i ≤ 2 ^ j → i ≤ j
pow-order i j h = elim (dec_lt j i) [
  | yes less ↦ absurd (
      omega (
        arith,
        pow-suc 2 j,
        one-le-pow j 2 (omega arith),
        pow-le-pow_right {n = 2} (omega arith) {i = suc j} {j = i} (omega arith),
      ))
  | no more ↦ omega arith
]

pub size-make :
    (A : Type 0) (initial max_capacity : ℕ) → (make {A = A} initial max_capacity).size ≡ 0
unfolding make
size-make A initial max_capacity = refl

module _ {A : Type 0} where
  -- The constructor gives, for sizes up to 2^31, a valid ring buffer that holds nothing, has room
  -- for the initial capacity before it grows, and can grow to the maximal one.
  pub make-IsValid :
      (initial max_capacity : ℕ)
      → initial ≤ 2 ^ 31
      → max_capacity ≤ 2 ^ 31
      → IsValid (make {A = A} initial max_capacity)
        × (max_capacity ≤ (make {A = A} initial max_capacity).max_cap)
        × (initial ≤ length (make {A = A} initial max_capacity).buf)
        × (contents (make {A = A} initial max_capacity) ≡ [])
  unfolding make
  make-IsValid initial max_capacity h g =
      let (k, e, fits, least, below) =
        next_pow2-rounds (max 2 initial) (omega arith) (omega arith) in
      let init_pow = next_pow2 (max 2 initial) in
      let top = pow-le-pow_right {n = 2} (omega arith) {i = k} {j = 31} below in
      let (j, d, wide, _, _) =
        next_pow2-rounds (max init_pow max_capacity) (omega (arith, e, fits))
          (omega (arith, e, top)) in
      let l = length-replicate {A = Option A} init_pow none ∙ e in
      let some_room = one-le-pow k 2 (omega arith) in
      (
        record {
          order = k;
          max_order = j;
          width = l;
          max_width = d;
          within = pow-order k j (omega (arith, e, d, wide));
          head_in = omega (arith, l, some_room);
          fits = omega arith;
          tail_at = sym (mod-eq_of_lt (omega (arith, l, some_room)));
        },
        omega (arith, d, wide),
        omega (arith, l, e, fits),
        refl,
      )
