-- ===== src/Ring/Smear.antt =====
-- The constructor rounds its sizes up to powers of two.
use native.Mathlib.Nat.{
  pow-suc, one-le-pow, pow-le-pow_right, le-div_iff_mul-le, div-lt_iff_lt-mul, add-mul, mul_comm,
  div-le_self, mul_assoc,
}
use native.Mathlib.Decide.{dec_lt}
use brass_runtime.Base.{
  ℕ, zero, suc, ◌+◌, ◌-◌, ◌*◌, ◌/◌, ◌^◌, ◌≤◌, ◌<◌, ◌≡◌, sym, ap, ◌∙◌, arith, ◌⊎◌, inl, inr, subst,
}
use Prim.Native.Nat.{bit_or}
use brass_runtime.Base.Ors.{bit_or-bounds, bit_or-high}
use brass_runtime.Ring.{smear, next_pow2}

pow-sum : (a b : ℕ) → 2 ^ (a + b) ≡ 2 ^ a * 2 ^ b
pow-sum a zero = omega (arith, ap (λ t. 2 ^ t) (right_zero a))
  where
    right_zero : (n : ℕ) → n + 0 ≡ n
    right_zero n = omega arith
pow-sum a (suc b) =
    let next : a + suc b ≡ suc (a + b) = omega arith in
    ap (λ t. 2 ^ t) next
    ∙ pow-suc 2 (a + b)
    ∙ ap (λ t. t * 2) (pow-sum a b)
    ∙ mul_assoc (2 ^ a) (2 ^ b) 2
    ∙ ap (λ t. 2 ^ a * t) (sym (pow-suc 2 b))

-- The `c - 1` blocks of `2 ^ m` at the top of `p` are ones, and so are enough digits below them.
blocks :
    (c m n p : ℕ)
    → 0 < c
    → p < 2 ^ m * c
    → 2 ^ m * c ≤ p + 2 ^ m
    → 2 ^ m ≤ 2 ^ n * c
    → 2 ^ n ≤ 2 ^ m
    → 2 ^ m * c ≤ bit_or p (p / c) + 2 ^ n
blocks zero m n p h top ones wide fits = absurd (omega arith)
blocks (suc c) m n p h top ones wide fits =
    let x = 2 ^ m - 2 ^ n in
    let whole : 2 ^ m * suc c ≡ c * 2 ^ m + 2 ^ m =
      omega (arith, mul_comm (2 ^ m) (suc c), add-mul c 1 (2 ^ m)) in
    let split : x * suc c + 2 ^ n * suc c ≡ 2 ^ m * suc c =
      sym (add-mul x (2 ^ n) (suc c)) ∙ ap (λ t. t * suc c) (omega arith) in
    let low = p - c * 2 ^ m in
    let is_split : p ≡ c * 2 ^ m + low = omega (arith, whole) in
    let q_low : p / suc c < 2 ^ m = (div-lt_iff_lt-mul h).1 top in
    let q_high : x ≤ p / suc c = (le-div_iff_mul-le h).1 (omega (arith, split)) in
    let low_in : low < 2 ^ m = omega (arith, whole) in
    let (_, r, _) = bit_or-bounds m low (p / suc c) low_in q_low in
    omega (
      arith,
      whole,
      q_high,
      r,
      ap (λ t. bit_or t (p / suc c)) is_split,
      bit_or-high m c low (p / suc c) low_in q_low,
    )

-- The first digits of `p`, `k` in all, are ones, but for `m` of them.
record Ones (k m p : ℕ) : Type 0 where
  inside : p < 2 ^ k
  ones : 2 ^ k ≤ p + 2 ^ m

small : (p c bound : ℕ) → 0 < c → p < bound → p / c < bound
small p c bound h t = omega (arith, div-le_self p c)

-- A shift by the number of leading ones doubles that number.
smear-more : (j m p : ℕ) → Ones (m + j) m p → Ones (m + j) (m - j) (smear p j)
smear-more j m p o =
    let s = pow-sum m j in
    let wide : 2 ^ m ≤ 2 ^ (m - j) * 2 ^ j = omega (
      arith,
      pow-sum (m - j) j,
      pow-le-pow_right {n = 2} (omega arith) {i = m} {j = m - j + j} (omega arith),
    ) in
    let least : 0 < 2 ^ j = omega (arith, one-le-pow j 2 (omega arith)) in
    let (_, _, t) =
      bit_or-bounds (m + j) p (p / 2 ^ j) o.inside (small p (2 ^ j) (2 ^ (m + j)) least o.inside) in
    record {
      inside = t;
      ones = omega (
        arith,
        s,
        blocks (2 ^ j) m (m - j) p least (omega (arith, s, o.inside)) (omega (arith, s, o.ones))
            wide (pow-le-pow_right {n = 2} (omega arith) {i = m - j} {j = m} (omega arith)),
      );
    }

smear-Ones : (k j m p : ℕ) → Ones k m p → (m ≡ 0) ⊎ (m + j ≡ k) → Ones k (m - j) (smear p j)
smear-Ones k j m p o (inl none_left) =
    let (l, _, t) =
      bit_or-bounds k p (p / 2 ^ j) o.inside
        (small p (2 ^ j) (2 ^ k) (omega (arith, one-le-pow j 2 (omega arith))) o.inside) in
    let same : m ≡ m - j = omega arith in
    record { inside = t; ones = omega (arith, l, o.ones, ap (λ t. 2 ^ t) same) }
smear-Ones k j m p o (inr e) =
    subst (λ t. Ones t (m - j) (smear p j)) e (smear-more j m p (subst (λ t. Ones t m p) (sym e) o))

reach : (k m d : ℕ) → m ≡ k - d → (m ≡ 0) ⊎ (m + suc d ≡ suc k)
reach k m d e = elim (dec_lt d k) [ yes h ↦ inr (omega arith) | no h ↦ inl (omega arith) ]

-- Five shifts fill up to 32 digits.
filled :
    (k p : ℕ)
    → k < 32
    → 2 ^ k ≤ p
    → p < 2 ^ suc k
    → smear (smear (smear (smear (smear p 1) 2) 4) 8) 16 + 1 ≡ 2 ^ suc k
filled k p h low high =
    let first : Ones (suc k) k p = record {
      inside = high;
      ones = omega (arith, pow-suc 2 k, low);
    } in
    let s1 = smear-Ones (suc k) 1 k p first (inr (omega arith)) in
    let s2 = smear-Ones (suc k) 2 (k - 1) _ s1 (reach k _ 1 (omega arith)) in
    let s3 = smear-Ones (suc k) 4 (k - 1 - 2) _ s2 (reach k _ 3 (omega arith)) in
    let s4 = smear-Ones (suc k) 8 (k - 1 - 2 - 4) _ s3 (reach k _ 7 (omega arith)) in
    let s5 = smear-Ones (suc k) 16 (k - 1 - 2 - 4 - 8) _ s4 (reach k _ 15 (omega arith)) in
    let all : k - 1 - 2 - 4 - 8 - 16 ≡ 0 = omega arith in
    omega (arith, s5.inside, s5.ones, ap (λ t. 2 ^ t) all)

-- The place of the first digit.
first_digit : (p : ℕ) → (k : ℕ) × (2 ^ k ≤ suc p) × (suc p < 2 ^ suc k)
first_digit zero = (0, omega arith, omega arith)
first_digit (suc p) =
    let (k, low, high) = first_digit p in
    let next = pow-suc 2 (suc k) in
    elim (dec_lt (suc (suc p)) (2 ^ suc k)) [
      | yes h ↦ (k, omega arith, h)
      | no h ↦ (suc k, omega arith, omega (arith, next))
    ]

-- From 2 to 2^31 the constructor rounds a size up to the least power of two that is not below it.
pub next_pow2-rounds :
    (n : ℕ)
    → 2 ≤ n
    → n ≤ 2 ^ 31
    → (k : ℕ) × (next_pow2 n ≡ 2 ^ k) × (n ≤ 2 ^ k) × (2 ^ k < 2 * n) × (k ≤ 31)
unfolding next_pow2
next_pow2-rounds zero h t = absurd (omega arith)
next_pow2-rounds (suc zero) h t = absurd (omega arith)
next_pow2-rounds (suc (suc n)) h t =
    let (k, low, high) = first_digit n in
    let small_enough : k < 31 = elim (dec_lt k 31) [
      | yes h ↦ h
      | no h ↦
          absurd
            (omega (arith, pow-le-pow_right {n = 2} (omega arith) {i = 31} {j = k} (omega arith)))
    ] in
    let less : suc (suc n) - 1 ≡ suc n = omega arith in
    (
      suc k,
      ap (λ p. smear (smear (smear (smear (smear p 1) 2) 4) 8) 16 + 1) less
          ∙ filled k (suc n) (omega arith) low high,
      omega arith,
      omega (arith, pow-suc 2 k),
      small_enough,
    )
