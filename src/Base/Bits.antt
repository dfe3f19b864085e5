-- ===== src/Base/Bits.antt =====
-- `a & (2^k - 1)` is the remainder by 2^k.
use Prim.Native.Nat.{
  ℕ, zero, suc, ◌+◌, ◌-◌, ◌*◌, ◌/◌, ◌%◌, ◌^◌, ◌≤◌, ◌<◌, min, bit_and, digits, bit_and-bitwise,
}
use mathlib.Core.Path.{◌≡◌, refl, ap}
use native.Mathlib.Nat.{pow-suc, one-le-pow}
use native.Mathlib.Omega.{arith}

abbrev common_digits : ℕ → ℕ → ℕ → ℕ
common_digits fuel a b = digits (λ _. zero) min fuel a b

-- Any two amounts of fuel that are enough give one result.
enough_digits : (m n a b : ℕ) → a ≤ m → a ≤ n → common_digits m a b ≡ common_digits n a b
enough_digits zero zero a b h k = refl
enough_digits (suc m) zero zero b h k = refl
enough_digits zero (suc n) zero b h k = refl
enough_digits (suc m) (suc n) zero b h k = refl
enough_digits zero n (suc a) b h k = absurd (omega arith)
enough_digits (suc m) zero (suc a) b h k = absurd (omega arith)
enough_digits (suc m) (suc n) (suc a) b h k =
    let half = enough_digits m n (suc a / 2) (b / 2) (omega arith) (omega arith) in
    omega (arith, half)

bit_and-by_halves : (a b : ℕ) → bit_and a b ≡ bit_and (a / 2) (b / 2) * 2 + min (a % 2) (b % 2)
bit_and-by_halves zero b = omega (arith, bit_and-bitwise zero b, bit_and-bitwise zero (b / 2))
bit_and-by_halves (suc a) b =
    let half = suc a / 2 in
    omega (
      arith,
      bit_and-bitwise (suc a) b,
      bit_and-bitwise half (b / 2),
      enough_digits half a half (b / 2) (omega arith) (omega arith),
    )

zero_mask : (fuel a : ℕ) → a ≤ fuel → bit_and a 0 ≡ 0
zero_mask fuel zero h = refl
zero_mask zero (suc a) h = absurd (omega arith)
zero_mask (suc fuel) (suc a) h =
    omega (arith, bit_and-by_halves (suc a) 0, zero_mask fuel (suc a / 2) (omega arith))

-- `low` is what stands below the bit `k`, and the mask keeps it.
mask_keeps_low : (k high low : ℕ) → low < 2 ^ k → bit_and (high * 2 ^ k + low) (2 ^ k - 1) ≡ low
mask_keeps_low zero high low h =
    omega (arith, zero_mask (high * 1 + low) (high * 1 + low) (omega arith))
mask_keeps_low (suc k) high low h =
    let doubled : 2 ^ suc k ≡ 2 * 2 ^ k = omega (arith, pow-suc 2 k) in
    let shifted : high * 2 ^ suc k ≡ 2 * (high * 2 ^ k) =
      omega (arith, ap (λ (t : ℕ). high * t) doubled) in
    ground (
      arith,
      doubled,
      shifted,
      bit_and-by_halves (high * 2 ^ suc k + low) (2 ^ suc k - 1),
      mask_keeps_low k high (low / 2) (omega arith),
    )

pub bit_and-mod : (k a : ℕ) → bit_and a (2 ^ k - 1) ≡ a % 2 ^ k
bit_and-mod k a = ground (arith, one-le-pow k 2, mask_keeps_low k (a / 2 ^ k) (a % 2 ^ k))
