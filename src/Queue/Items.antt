-- ===== src/Queue/Items.antt =====
-- The buffer of a queue, through the theorems on the ring buffer.
use brass_runtime.Base.{
  ℕ, ◌+◌, ◌-◌, ◌<◌, List, [], ◌∷◌, ◌++◌, Option, some, length, length-append, inl, inr, ◌≡◌, refl,
  sym, ap, ◌∙◌, arith,
}
use brass_runtime.Ring.{Bounded, push, shift, clear, bounded_push, bounded_shift, bounded_clear}
use brass_runtime.Ring.Valid.{IsValid, contents}
use brass_runtime.Ring.Put.{length-contents}
use brass_runtime.Ring.Refines.{push_refines}
use brass_runtime.Ring.Shift.{shift_refines, clear_refines}

module _ {A : Type 0} where
  -- A buffer behind another: valid, with the same bound, and the numbers and values given.
  pub record Holds (b : Bounded A) (bound n : ℕ) (values : List (Option A)) : Type 0 where
    pub ring : IsValid b.inner
    pub bounded : b.inner.max_cap ≡ bound
    pub sized : b.inner.size ≡ n
    pub held : contents b.inner ≡ values

  -- A push below the maximum is never dropped.
  pub push-Holds :
      (x : A) (b : Bounded A)
      → IsValid b.inner
      → b.inner.size < b.inner.max_cap
      → Holds
          (bounded_push x b).1
          b.inner.max_cap
          (b.inner.size + 1)
          (contents b.inner ++ (some x ∷ []))
  unfolding bounded_push
  push-Holds x b v h =
      let (w, same, added) = push_refines x b.inner v in
      let r = push x b.inner in
      let more : contents r.1 ≡ contents b.inner ++ (some x ∷ []) = elim added [
        | inl (_, _, e) ↦ e
        | inr (full, _, _) ↦ absurd (omega arith)
      ] in
      record {
        ring = w;
        bounded = same;
        sized = omega (
          arith,
          length-contents r.1,
          length-contents b.inner,
          ap (length {A = Option A}) more,
          length-append (contents b.inner) (some x ∷ []),
        );
        held = more;
      }

  pub shift-Holds :
      (b : Bounded A)
      → IsValid b.inner
      → 0 < b.inner.size
      → (values : List (Option A)) × (contents b.inner ≡ (bounded_shift b).0 ∷ values)
        × Holds (bounded_shift b).1 b.inner.max_cap (b.inner.size - 1) values
  unfolding bounded_shift
  shift-Holds b v h =
      let (w, same, first) = shift_refines b.inner v in
      let (x, r) = shift b.inner in
      let split : contents b.inner ≡ x ∷ contents r = elim first [
        | inl (none_left, _, _) ↦ absurd (omega arith)
        | inr (_, e) ↦ e
      ] in
      (
        contents r,
        split,
        record {
          ring = w;
          bounded = same;
          sized =
              omega (
                arith,
                length-contents r,
                length-contents b.inner,
                ap (length {A = Option A}) split,
              );
          held = refl;
        },
      )

  pub clear-Holds : (b : Bounded A) → IsValid b.inner → Holds (bounded_clear b) b.inner.max_cap 0 []
  unfolding bounded_clear
  clear-Holds b v =
      let (w, empty, same) = clear_refines b.inner v in
      record {
        ring = w;
        bounded = same;
        sized = sym (length-contents (clear b.inner)) ∙ ap (length {A = Option A}) empty;
        held = empty;
      }
