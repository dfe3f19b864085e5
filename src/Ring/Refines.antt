-- ===== src/Ring/Refines.antt =====
-- A valid ring buffer is a queue of at most `max_cap` values.
use native.Mathlib.Nat.{pow-le-pow_right}
use brass_runtime.Base.{
  ◌≤◌, ◌<◌, [], ◌∷◌, ◌++◌, some, length, ◌≡◌, ◌≢◌, refl, sym, ap, ◌∙◌, arith, leb, ◌==◌, inl, inr,
  ◌⊎◌, Bool-cases, subst,
}
use brass_runtime.Ring.{RingBuffer, PushStatus, ok, grew, dropped, grow, push}
use brass_runtime.Ring.Valid.{contents, IsValid}
use brass_runtime.Ring.Put.{put-contents, put-IsValid, max_cap-put}
use brass_runtime.Ring.Grow.{grow-contents, grow-IsValid, size-grow, max_cap-grow}

ok≢dropped : ok ≢ dropped
ok≢dropped e = cc

grew≢dropped : grew ≢ dropped
grew≢dropped e = cc

module _ {A : Type 0} where
  -- What a queue of at most `cap` values does with one more: the status, and what it then holds.
  abbrev pub Pushed : A → RingBuffer A → PushStatus × RingBuffer A → Type 0
  Pushed x r (status, r') =
      IsValid r'
      × (r'.max_cap ≡ r.max_cap)
      × (((r.size < r.max_cap) × (status ≢ dropped) × (contents r' ≡ contents r ++ (some x ∷ [])))
          ⊎ ((r.max_cap ≤ r.size) × (status ≡ dropped) × (r' ≡ r)))

  full-width : (r : RingBuffer A) → IsValid r → length r.buf ≤ r.max_cap
  full-width r v = omega (
    arith,
    v.width,
    v.max_width,
    pow-le-pow_right {n = 2} (omega arith) {i = v.order} {j = v.max_order} v.within,
  )

  -- On a valid ring buffer `push` adds the value at the end, growing the array if it is full, and
  -- reports a drop and changes nothing exactly if there are `max_cap` values already; the ring
  -- buffer stays valid.
  pub push_refines : (x : A) (r : RingBuffer A) → IsValid r → Pushed x r (push x r)
  unfolding push
  push_refines x r v = elim (Bool-cases (r.size == length r.buf)) [
    | inr room ↦
        let less : r.size < length r.buf = ground (arith, v.fits) in
        rw room (
          put-IsValid x r v less,
          max_cap-put x r,
          inl (omega (arith, full-width r v), ok≢dropped, put-contents x r v less),
        )
    | inl full ↦ elim (Bool-cases (leb r.max_cap (length r.buf))) [
      | inl at_most ↦ rw (full, at_most) (v, refl, inr (ground arith, refl, refl))
      | inr below ↦
          let less : length r.buf < r.max_cap = ground arith in
          let (w, room) = grow-IsValid r v less in
          rw (full, below)
            (
              put-IsValid x (grow r) w
                  (subst (λ t. t < length (grow r).buf) (sym (size-grow r)) room),
              (max_cap-put x (grow r) ∙ max_cap-grow r),
              inl (
                ground arith,
                grew≢dropped,
                put-contents x (grow r) w
                      (subst (λ t. t < length (grow r).buf) (sym (size-grow r)) room)
                    ∙ ap (λ c. c ++ (some x ∷ [])) (grow-contents r v),
              ),
            )
    ]
  ]
