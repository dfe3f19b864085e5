-- ===== src/Ring/Shift.antt =====
-- `shift` and `clear` of a valid ring buffer, and the buffer that its constructor makes.
use native.Mathlib.Nat.{mod-eq_of_lt, mod-add-mod, mod-lt}
use brass_runtime.Base.{
  ℕ, suc, ◌+◌, ◌-◌, ◌%◌, ◌<◌, [], ◌∷◌, Option, none, length, get_or, set, length-set, ◌≡◌, refl,
  sym, ap, ◌∙◌, arith, ◌==◌, inl, inr, ◌⊎◌, Bool-cases,
}
use brass_runtime.Ring.{RingBuffer, masked, shift, clear}
use brass_runtime.Ring.Valid.{
  window, contents, IsValid, masked-mod, mod-apart, window-mod, window-set,
}
use brass_runtime.Ring.Put.{positive}

module _ {A : Type 0} where
  -- What a queue does when its oldest value is taken: from none, nothing; else that value, and the
  -- others remain.
  abbrev pub Shifted : RingBuffer A → Option A × RingBuffer A → Type 0
  Shifted r (value, r') =
      IsValid r'
      × (r'.max_cap ≡ r.max_cap)
      × (((r.size ≡ 0) × (value ≡ none) × (r' ≡ r))
          ⊎ ((0 < r.size) × (contents r ≡ value ∷ contents r')))

  after_head :
      (r : RingBuffer A)
      → IsValid r
      → (n : ℕ) → r.size ≡ suc n
      → window (set r.buf r.head none) (masked (r.head + 1) (length r.buf)) n
        ≡ window r.buf (suc r.head) n
  after_head r v n e =
      let len = length r.buf in
      let h : r.head + 1 ≡ suc r.head = omega arith in
      let at : masked (r.head + 1) len ≡ suc r.head % len =
        masked-mod len v.order (r.head + 1) v.width ∙ ap (λ t. t % len) h in
      ap (λ t. window (set r.buf r.head none) t n) at
      ∙ window-set r.buf (suc r.head % len) n r.head none (λ d p q.
        let next : suc r.head + d ≡ r.head + suc d = omega arith in
        mod-apart len r.head (suc d) (omega arith) (omega (arith, v.fits, e)) (
          sym (ap (λ t. t % len) next)
          ∙ sym (mod-add-mod (suc r.head) len d)
          ∙ sym q
          ∙ sym (mod-eq_of_lt v.head_in)))
      ∙ window-mod r.buf (suc r.head) n

  tail_stays :
      (r : RingBuffer A)
      → IsValid r
      → (n : ℕ) → r.size ≡ suc n
      → r.tail ≡ (masked (r.head + 1) (length r.buf) + n) % length r.buf
  tail_stays r v n e =
      let len = length r.buf in
      let split : r.head + r.size ≡ r.head + 1 + n = omega (arith, e) in
      v.tail_at
      ∙ ap (λ t. t % len) split
      ∙ sym (mod-add-mod (r.head + 1) len n)
      ∙ ap (λ t. (t + n) % len) (sym (masked-mod len v.order (r.head + 1) v.width))

  shift-IsValid :
      (r : RingBuffer A)
      → IsValid r
      → (n : ℕ) → r.size ≡ suc n
      → IsValid (record r {
        buf = set r.buf r.head none;
        head = masked (r.head + 1) (length r.buf);
        size = r.size - 1;
      })
  shift-IsValid r v n e =
      let same = length-set r.buf r.head none in
      let left : n ≡ r.size - 1 = omega (arith, e) in
      record {
        order = v.order;
        max_order = v.max_order;
        width = same ∙ v.width;
        max_width = v.max_width;
        within = v.within;
        head_in = omega (
          arith,
          same,
          masked-mod (length r.buf) v.order (r.head + 1) v.width,
          mod-lt (r.head + 1) (positive r v),
        );
        fits = omega (arith, same, v.fits);
        tail_at =
            tail_stays r v n e
            ∙ ap (λ t. (masked (r.head + 1) (length r.buf) + t) % length r.buf) left
            ∙ ap (λ t. (masked (r.head + 1) (length r.buf) + (r.size - 1)) % t) (sym same);
      }

  contents-shift :
      (r : RingBuffer A)
      → IsValid r
      → (n : ℕ) → r.size ≡ suc n
      → contents r
        ≡ get_or r.buf r.head none
          ∷ window (set r.buf r.head none) (masked (r.head + 1) (length r.buf)) (r.size - 1)
  contents-shift r v n e =
      let left : n ≡ r.size - 1 = omega (arith, e) in
      ap (window r.buf r.head) e
      ∙ ap (λ i. get_or r.buf i none ∷ window r.buf (suc r.head) n) (mod-eq_of_lt v.head_in)
      ∙ ap (◌∷◌ (get_or r.buf r.head none)) (
          sym (after_head r v n e)
          ∙ ap (window (set r.buf r.head none) (masked (r.head + 1) (length r.buf))) left)

  -- On a valid ring buffer `shift` takes the oldest value, and from an empty one nothing; the ring
  -- buffer stays valid.
  pub shift_refines : (r : RingBuffer A) → IsValid r → Shifted r (shift r)
  unfolding shift
  shift_refines r v = elim (Bool-cases (r.size == 0)) [
    | inl empty ↦ rw empty (v, refl, inl (ground arith, refl, refl))
    | inr some_left ↦
        let e : r.size ≡ suc (r.size - 1) = ground arith in
        rw some_left (
          shift-IsValid r v (r.size - 1) e,
          refl,
          inr (ground arith, contents-shift r v (r.size - 1) e),
        )
  ]

  -- `clear` leaves a valid ring buffer with nothing in it.
  pub clear_refines :
      (r : RingBuffer A)
      → IsValid r
      → IsValid (clear r) × (contents (clear r) ≡ []) × ((clear r).max_cap ≡ r.max_cap)
  unfolding clear
  clear_refines r v = (
    record {
      order = v.order;
      max_order = v.max_order;
      width = v.width;
      max_width = v.max_width;
      within = v.within;
      head_in = positive r v;
      fits = omega arith;
      tail_at = sym (mod-eq_of_lt (positive r v));
    },
    refl,
    refl,
  )
