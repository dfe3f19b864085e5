-- ===== src/Ring/Put.antt =====
-- A write of one value behind the others, where there is room.
use native.Mathlib.Nat.{mod-add-mod, mod-lt, one-le-pow}
use mathlib.Core.Path.{ap₂}
use brass_runtime.Base.{
  ℕ, zero, suc, ◌+◌, ◌-◌, ◌%◌, ◌<◌, List, [], ◌∷◌, ◌++◌, Option, none, some, length, get_or, set,
  get_or-set_self, length-set, ◌≡◌, ◌≢◌, refl, sym, ap, ◌∙◌, arith,
}
use brass_runtime.Ring.{RingBuffer, masked, put}
use brass_runtime.Ring.Valid.{
  window, contents, IsValid, masked-mod, mod-apart, window-snoc, window-set,
}

module _ {A : Type 0} where
  length-window : (buf : List (Option A)) (h n : ℕ) → length (window buf h n) ≡ n
  length-window buf h zero = refl
  length-window buf h (suc n) = ap suc (length-window buf (suc h) n)

  pub length-contents : (r : RingBuffer A) → length (contents r) ≡ r.size
  length-contents r = length-window r.buf r.head r.size

  pub positive : (r : RingBuffer A) → IsValid r → 0 < length r.buf
  positive r v = omega (arith, v.width, one-le-pow v.order 2)

  tail_in : (r : RingBuffer A) → IsValid r → r.tail < length r.buf
  tail_in r v = omega (arith, v.tail_at, mod-lt (r.head + r.size) {m = length r.buf} (positive r v))

  -- The cell behind the last one is none of those before it.
  tail_apart :
      (r : RingBuffer A)
      → IsValid r
      → r.size < length r.buf
      → (d : ℕ) → d < r.size
      → r.tail ≢ (r.head + d) % length r.buf
  tail_apart r v h d p e =
      let split : r.head + d + (r.size - d) ≡ r.head + r.size = omega arith in
      mod-apart (length r.buf) (r.head + d) (r.size - d) (omega arith) (omega arith)
        (ap (λ t. t % length r.buf) split ∙ sym v.tail_at ∙ e)

  step_on :
      (r : RingBuffer A) (i n : ℕ)
      → IsValid r
      → i ≡ (r.head + n) % length r.buf
      → masked (i + 1) (length r.buf) ≡ (r.head + (n + 1)) % length r.buf
  step_on r i n v e =
      let len = length r.buf in
      let assoc : r.head + n + 1 ≡ r.head + (n + 1) = omega arith in
      masked-mod len v.order (i + 1) v.width
      ∙ ap (λ t. (t + 1) % len) e
      ∙ mod-add-mod (r.head + n) len 1
      ∙ ap (λ t. t % len) assoc

  pub put-contents :
      (x : A) (r : RingBuffer A)
      → IsValid r
      → r.size < length r.buf
      → contents (put x r) ≡ contents r ++ (some x ∷ [])
  unfolding put
  put-contents x r v h =
      let more : r.size + 1 ≡ suc r.size = omega arith in
      let l = length-set r.buf r.tail (some x) in
      ap (window (set r.buf r.tail (some x)) r.head) more
      ∙ window-snoc (set r.buf r.tail (some x)) r.head r.size
      ∙ ap₂ (λ xs y. xs ++ (y ∷ []))
          (window-set r.buf r.head r.size r.tail (some x) (tail_apart r v h))
          (ap (λ t. get_or (set r.buf r.tail (some x)) ((r.head + r.size) % t) none) l
            ∙ ap (λ t. get_or (set r.buf r.tail (some x)) t none) (sym v.tail_at)
            ∙ get_or-set_self r.buf r.tail (some x) none (tail_in r v))

  pub put-IsValid :
      (x : A) (r : RingBuffer A) → IsValid r → r.size < length r.buf → IsValid (put x r)
  unfolding put
  put-IsValid x r v h = record {
    order = v.order;
    max_order = v.max_order;
    width = length-set r.buf r.tail (some x) ∙ v.width;
    max_width = v.max_width;
    within = v.within;
    head_in = omega (arith, length-set r.buf r.tail (some x), v.head_in);
    fits = omega (arith, length-set r.buf r.tail (some x));
    tail_at =
        step_on r r.tail r.size v v.tail_at
        ∙ ap (λ t. (r.head + (r.size + 1)) % t) (sym (length-set r.buf r.tail (some x)));
  }

  pub max_cap-put : (x : A) (r : RingBuffer A) → (put x r).max_cap ≡ r.max_cap
  unfolding put
  max_cap-put x r = refl
