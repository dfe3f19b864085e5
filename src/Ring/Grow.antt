-- ===== src/Ring/Grow.antt =====
-- The copy of the values into an array of twice the length.
use native.Mathlib.Nat.{mod-eq_of_lt, zero-add, pow-suc, pow-le-pow_right}
use mathlib.Core.Path.{ap₂}
use mathlib.Core.List.{append_assoc}
use native.Mathlib.Decide.{dec_lt}
use brass_runtime.Base.{
  ℕ, zero, suc, ◌+◌, ◌-◌, ◌*◌, ◌%◌, ◌^◌, ◌≤◌, ◌<◌, min, List, [], ◌∷◌, ◌++◌, Option, none, length,
  get_or, replicate, length-append, length-replicate, ◌≡◌, refl, sym, ap, ◌∙◌, arith,
}
use brass_runtime.Ring.{RingBuffer, gather, grow}
use brass_runtime.Ring.Valid.{window, contents, IsValid, masked-mod}
use brass_runtime.Ring.Put.{positive}

module _ {A : Type 0} where
  gather-window :
      (r : RingBuffer A) (i n : ℕ)
      → IsValid r
      → gather r.buf r.head i n ≡ window r.buf (r.head + i) n
  unfolding gather
  gather-window r i zero v = refl
  gather-window r i (suc n) v =
      let e : r.head + suc i ≡ suc (r.head + i) = omega arith in
      ap₂ ◌∷◌
        (ap (λ t. get_or r.buf t none) (masked-mod (length r.buf) v.order (r.head + i) v.width))
        (gather-window r (suc i) n v ∙ ap (λ t. window r.buf t n) e)

  get_or-append :
      (pre rest : List (Option A)) (x d : Option A) → get_or (pre ++ (x ∷ rest)) (length pre) d ≡ x
  get_or-append [] rest x d = refl
  get_or-append (p ∷ pre) rest x d = get_or-append pre rest x d

  -- A window that does not go round is that part of the array.
  window-part :
      (pre part rest : List (Option A))
      → window (pre ++ (part ++ rest)) (length pre) (length part) ≡ part
  window-part pre [] rest = refl
  window-part pre (x ∷ part) rest =
      let l = length-append pre (x ∷ (part ++ rest)) in
      let inside : length pre % length (pre ++ (x ∷ (part ++ rest))) ≡ length pre =
        mod-eq_of_lt (omega (arith, l)) in
      let e : pre ++ (x ∷ (part ++ rest)) ≡ (pre ++ (x ∷ [])) ++ (part ++ rest) =
        sym (append_assoc pre (x ∷ []) (part ++ rest)) in
      let at : suc (length pre) ≡ length (pre ++ (x ∷ [])) =
        omega (arith, length-append pre (x ∷ [])) in
      ap₂ ◌∷◌
        (ap (λ t. get_or (pre ++ (x ∷ (part ++ rest))) t none) inside
          ∙ get_or-append pre (part ++ rest) x none)
        (ap₂ (λ b h. window b h (length part)) e at ∙ window-part (pre ++ (x ∷ [])) part rest)

  -- An array below the maximum can be doubled.
  doubled :
      (r : RingBuffer A) (v : IsValid r)
      → length r.buf < r.max_cap
      → (suc v.order ≤ v.max_order) × (min (length r.buf * 2) r.max_cap ≡ 2 ^ suc v.order)
  doubled r v h = elim (dec_lt v.order v.max_order) [
    | yes p ↦ (
      p,
      omega (
        arith,
        v.width,
        v.max_width,
        pow-suc 2 v.order,
        pow-le-pow_right {n = 2} (omega arith) {i = suc v.order} {j = v.max_order} p,
      ),
    )
    | no p ↦ absurd (
        omega (
          arith,
          v.width,
          v.max_width,
          pow-le-pow_right {n = 2} (omega arith) {i = v.max_order} {j = v.order} (omega arith),
        ))
  ]

  length-gather : (r : RingBuffer A) (i n : ℕ) → length (gather r.buf r.head i n) ≡ n
  unfolding gather
  length-gather r i zero = refl
  length-gather r i (suc n) = ap suc (length-gather r (suc i) n)

  pub size-grow : (r : RingBuffer A) → (grow r).size ≡ r.size
  unfolding grow
  size-grow r = refl

  pub max_cap-grow : (r : RingBuffer A) → (grow r).max_cap ≡ r.max_cap
  unfolding grow
  max_cap-grow r = refl

  pub grow-contents : (r : RingBuffer A) → IsValid r → (contents (grow r) ≡ contents r)
  unfolding grow
  grow-contents r v =
      let g = gather r.buf r.head 0 r.size in
      let rest = replicate {A = Option A} (min (length r.buf * 2) r.max_cap - r.size) none in
      let at : r.head + 0 ≡ r.head = omega arith in
      ap (window (g ++ rest) 0) (sym (length-gather r 0 r.size))
      ∙ window-part [] g rest
      ∙ gather-window r 0 r.size v
      ∙ ap (λ t. window r.buf t r.size) at

  grow-room :
      (r : RingBuffer A)
      → IsValid r
      → length r.buf < r.max_cap
      → length (grow r).buf ≡ min (length r.buf * 2) r.max_cap
  unfolding grow
  grow-room r v h =
      let next = min (length r.buf * 2) r.max_cap in
      omega (
        arith,
        length-append (gather r.buf r.head 0 r.size) (replicate (next - r.size) none),
        length-gather r 0 r.size,
        length-replicate {A = Option A} (next - r.size) none,
        v.fits,
      )

  pub grow-IsValid :
      (r : RingBuffer A)
      → IsValid r
      → length r.buf < r.max_cap
      → IsValid (grow r) × (r.size < length (grow r).buf)
  unfolding grow
  grow-IsValid r v h =
      let (more, wide) = doubled r v h in
      let room = grow-room r v h in
      let some_room = positive r v in
      (
        record {
          order = suc v.order;
          max_order = v.max_order;
          width = room ∙ wide;
          max_width = v.max_width;
          within = more;
          head_in = omega (arith, room, some_room);
          fits = omega (arith, room, v.fits);
          tail_at = sym (mod-eq_of_lt (omega (arith, room, v.fits, some_room)) ∙ zero-add r.size);
        },
        omega (arith, room, v.fits, some_room),
      )
