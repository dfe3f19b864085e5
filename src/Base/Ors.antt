-- ===== src/Base/Ors.antt =====
-- `a | b` on numbers of few digits.
use Prim.Native.Nat.{
  ℕ, zero, suc, ◌+◌, ◌*◌, ◌/◌, ◌%◌, ◌^◌, ◌≤◌, ◌<◌, max, bit_or, digits, bit_or-bitwise,
}
use mathlib.Core.Path.{◌≡◌, refl, ap}
use native.Mathlib.Nat.{pow-suc}
use native.Mathlib.Omega.{arith}

abbrev either_digits : ℕ → ℕ → ℕ → ℕ
either_digits fuel a b = digits (λ b. b) max fuel a b

-- Any two amounts of fuel that are enough give one result.
enough_for_either : (m n a b : ℕ) → a ≤ m → a ≤ n → either_digits m a b ≡ either_digits n a b
enough_for_either zero zero a b h k = refl
enough_for_either (suc m) zero zero b h k = refl
enough_for_either zero (suc n) zero b h k = refl
enough_for_either (suc m) (suc n) zero b h k = refl
enough_for_either zero n (suc a) b h k = absurd (omega arith)
enough_for_either (suc m) zero (suc a) b h k = absurd (omega arith)
enough_for_either (suc m) (suc n) (suc a) b h k =
    omega (arith, enough_for_either m n (suc a / 2) (b / 2) (omega arith) (omega arith))

bit_or-by_halves : (a b : ℕ) → bit_or a b ≡ bit_or (a / 2) (b / 2) * 2 + max (a % 2) (b % 2)
bit_or-by_halves zero b = omega (arith, bit_or-bitwise zero b, bit_or-bitwise zero (b / 2))
bit_or-by_halves (suc a) b =
    let half = suc a / 2 in
    omega (
      arith,
      bit_or-bitwise (suc a) b,
      bit_or-bitwise half (b / 2),
      enough_for_either a half half (b / 2) (omega arith) (omega arith),
    )

-- `a | b` has the digits of both, and no others.
pub bit_or-bounds :
    (k a b : ℕ) → a < 2 ^ k → b < 2 ^ k → (a ≤ bit_or a b) × (b ≤ bit_or a b) × (bit_or a b < 2 ^ k)
bit_or-bounds zero a b h g = ground (arith, bit_or-bitwise 0 0)
bit_or-bounds (suc k) a b h g =
    let doubled : 2 ^ suc k ≡ 2 * 2 ^ k = omega (arith, pow-suc 2 k) in
    let (l, r, t) =
      bit_or-bounds k (a / 2) (b / 2) (omega (arith, doubled)) (omega (arith, doubled)) in
    (
      omega (arith, bit_or-by_halves a b, l),
      omega (arith, bit_or-by_halves a b, r),
      omega (arith, bit_or-by_halves a b, t, doubled),
    )

bit_or-zero : (fuel a : ℕ) → a ≤ fuel → bit_or a 0 ≡ a
bit_or-zero fuel zero h = refl
bit_or-zero zero (suc a) h = absurd (omega arith)
bit_or-zero (suc fuel) (suc a) h =
    omega (arith, bit_or-by_halves (suc a) 0, bit_or-zero fuel (suc a / 2) (omega arith))

-- Digits of `a` from the k-th on stay where `b` has only lower ones.
pub bit_or-high :
    (k high low b : ℕ)
    → low < 2 ^ k
    → b < 2 ^ k
    → bit_or (high * 2 ^ k + low) b ≡ high * 2 ^ k + bit_or low b
bit_or-high zero high zero zero h g =
    omega (
      arith,
      bit_or-zero (high * 1 + 0) (high * 1 + 0) (omega arith),
      bit_or-zero 0 0 (omega arith),
    )
bit_or-high zero high (suc low) b h g = absurd (omega arith)
bit_or-high zero high zero (suc b) h g = absurd (omega arith)
bit_or-high (suc k) high low b h g =
    let doubled : 2 ^ suc k ≡ 2 * 2 ^ k = omega (arith, pow-suc 2 k) in
    let shifted : high * 2 ^ suc k ≡ 2 * (high * 2 ^ k) =
      omega (arith, ap (λ (t : ℕ). high * t) doubled) in
    let split : (high * 2 ^ suc k + low) / 2 ≡ high * 2 ^ k + low / 2 = omega (arith, shifted) in
    omega (
      arith,
      shifted,
      bit_or-by_halves (high * 2 ^ suc k + low) b,
      bit_or-by_halves low b,
      ap (λ t. bit_or t (b / 2)) split,
      bit_or-high k high (low / 2) (b / 2) (omega (arith, doubled)) (omega (arith, doubled)),
    )
