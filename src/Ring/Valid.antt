-- ===== src/Ring/Valid.antt =====
-- What a ring buffer holds, and when its fields fit together.
use native.Mathlib.Nat.{mod-eq_of_lt, mod-eq-sub-mod, mod-add-mod, mod-lt}
use mathlib.Core.Path.{ap₂}
use native.Mathlib.Decide.{dec_lt}
use brass_runtime.Base.{
  ℕ, zero, suc, ◌+◌, ◌-◌, ◌%◌, ◌^◌, ◌≤◌, ◌<◌, List, [], ◌∷◌, ◌++◌, Option, none, length, get_or,
  set, get_or-set_ne, ◌≡◌, ◌≢◌, refl, sym, ap, ◌∙◌, arith, length-set,
}
use brass_runtime.Base.Bits.{bit_and-mod}
use brass_runtime.Ring.{RingBuffer, masked}

pub masked-mod : (len k i : ℕ) → len ≡ 2 ^ k → masked i len ≡ i % len
masked-mod len k i e = rw e (bit_and-mod k i)

-- Fewer steps than the array is long do not come back to the same cell.
pub mod-apart : (len a d : ℕ) → 0 < d → d < len → (a + d) % len ≢ a % len
mod-apart len a d p q = elim (dec_lt (a % len + d) len) [
  | yes h ↦ omega (arith, mod-add-mod a len d, mod-eq_of_lt {n = a % len + d} {m = len} h)
  | no h ↦ omega (
    arith,
    mod-add-mod a len d,
    mod-lt a {m = len} (omega arith),
    mod-eq-sub-mod {n = a % len + d} {m = len} (omega arith),
    mod-eq_of_lt {n = a % len + d - len} {m = len}
        (omega (arith, mod-lt a {m = len} (omega arith))),
  )
]

mod_twice : (len a : ℕ) → (a % len) % len ≡ a % len
mod_twice len a =
    let l : a % len + 0 ≡ a % len = omega arith in
    let r : a + 0 ≡ a = omega arith in
    ap (λ t. t % len) (sym l) ∙ mod-add-mod a len 0 ∙ ap (λ t. t % len) r

suc-mod : (len a b : ℕ) → a % len ≡ b % len → suc a % len ≡ suc b % len
suc-mod len a b e =
    let shift : (a % len + 1) % len ≡ (b % len + 1) % len = ap (λ t. (t + 1) % len) e in
    let at_a : a + 1 ≡ suc a = omega arith in
    let at_b : b + 1 ≡ suc b = omega arith in
    ap (λ t. t % len) (sym at_a)
    ∙ sym (mod-add-mod a len 1)
    ∙ shift
    ∙ mod-add-mod b len 1
    ∙ ap (λ t. t % len) at_b

module _ {A : Type 0} where
  -- The `n` cells from index `h` on, going round at the end of the array.
  abbrev pub window : List (Option A) → ℕ → ℕ → List (Option A)
  window buf h zero = []
  window buf h (suc n) = get_or buf (h % length buf) none ∷ window buf (suc h) n

  -- What a client sees, oldest first.
  abbrev pub contents : RingBuffer A → List (Option A)
  contents r = window r.buf r.head r.size

  pub record IsValid (r : RingBuffer A) : Type 0 where
    pub order : ℕ
    pub max_order : ℕ
    pub width : length r.buf ≡ 2 ^ order
    pub max_width : r.max_cap ≡ 2 ^ max_order
    pub within : order ≤ max_order
    pub head_in : r.head < length r.buf
    pub fits : r.size ≤ length r.buf
    pub tail_at : r.tail ≡ (r.head + r.size) % length r.buf

  window-cong :
      (buf : List (Option A)) (h j n : ℕ)
      → h % length buf ≡ j % length buf
      → window buf h n ≡ window buf j n
  window-cong buf h j zero e = refl
  window-cong buf h j (suc n) e =
      ap₂ ◌∷◌ (ap (λ t. get_or buf t none) e)
        (window-cong buf (suc h) (suc j) n (suc-mod (length buf) h j e))

  pub window-mod :
      (buf : List (Option A)) (h n : ℕ) → window buf (h % length buf) n ≡ window buf h n
  window-mod buf h n = window-cong buf (h % length buf) h n (mod_twice (length buf) h)

  pub window-snoc :
      (buf : List (Option A)) (h n : ℕ)
      → window buf h (suc n) ≡ window buf h n ++ (get_or buf ((h + n) % length buf) none ∷ [])
  window-snoc buf h zero = ap (λ j. get_or buf (j % length buf) none ∷ []) (omega arith)
  window-snoc buf h (suc n) =
      let e : suc h + n ≡ h + suc n = omega arith in
      ap (◌∷◌ (get_or buf (h % length buf) none)) (
        window-snoc buf (suc h) n
        ∙ ap (λ j. window buf (suc h) n ++ (get_or buf (j % length buf) none ∷ [])) e)

  -- A write outside the window leaves it alone.
  pub window-set :
      (buf : List (Option A)) (h n i : ℕ) (v : Option A)
      → ((d : ℕ) → d < n → i ≢ (h + d) % length buf)
      → window (set buf i v) h n ≡ window buf h n
  window-set buf h zero i v apart = refl
  window-set buf h (suc n) i v apart =
      let here : h + 0 ≡ h = omega arith in
      let e : i ≢ h % length buf =
        λ p. apart 0 (omega arith) (p ∙ ap (λ t. t % length buf) (sym here)) in
      ap₂ ◌∷◌
        (ap (λ l. get_or (set buf i v) (h % l) none) (length-set buf i v)
          ∙ get_or-set_ne buf v none e)
        (window-set buf (suc h) n i v λ d p q.
          let next : suc h + d ≡ h + suc d = omega arith in
          apart (suc d) (omega arith) (q ∙ ap (λ t. t % length buf) next))
