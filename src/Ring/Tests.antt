-- ===== src/Ring/Tests.antt =====
-- Witnesses for the theorems on ring buffers.
use brass_runtime.Base.{length, ◌≡◌, ◌≤◌, ℕ, [], ◌∷◌, some, refl, arith}
use brass_runtime.Ring.{RingBuffer, make, push, shift}
use brass_runtime.Ring.Made.{make-IsValid}
use brass_runtime.Ring.Valid.{IsValid, contents}
use brass_runtime.Ring.Refines.{Pushed, push_refines}
use brass_runtime.Ring.Shift.{Shifted, shift_refines}

-- A full array whose values go round: 5 and then 7.
abbrev full_ring : RingBuffer ℕ
full_ring = record { buf = some 7 ∷ some 5 ∷ []; head = 1; tail = 1; size = 2; max_cap = 4 }

full_ring-IsValid : IsValid full_ring
full_ring-IsValid = record {
  order = 1;
  max_order = 2;
  width = refl;
  max_width = refl;
  within = omega arith;
  head_in = omega arith;
  fits = omega arith;
  tail_at = refl;
}

push_refines_example : Pushed 9 full_ring (push 9 full_ring)
push_refines_example = push_refines 9 full_ring full_ring-IsValid

shift_refines_example : Shifted full_ring (shift full_ring)
shift_refines_example = shift_refines full_ring full_ring-IsValid

make-IsValid_example :
    IsValid (make {A = ℕ} 3 100)
    × (100 ≤ (make {A = ℕ} 3 100).max_cap)
    × (3 ≤ length (make {A = ℕ} 3 100).buf)
    × (contents (make {A = ℕ} 3 100) ≡ [])
make-IsValid_example = make-IsValid 3 100 (omega arith) (omega arith)
