-- ===== src/Ring.antt =====
-- core/runtime/ringBuffer.ts (`RingBuffer`) and the TypeScript engine of boundedRingBuffer.ts.
-- The array is a list of options: `none` is `undefined`, which a read out of range gives too. A
-- method that changes the buffer returns the new one. Indices and sizes are below 2^31, where `&`,
-- `|` and `>>>` of JavaScript are those of the natural numbers.
pub mod Valid
pub mod Put
pub mod Smear
pub mod Made
pub mod Grow
pub mod Refines
pub mod Shift
mod Tests
use Prim.Native.Nat.{bit_and, bit_or}
use brass_runtime.Base.{
  ℕ, zero, suc, ◌+◌, ◌-◌, ◌*◌, ◌/◌, ◌^◌, min, max, Bool, true, false, List, [], ◌∷◌, ◌++◌, Option,
  none, some, length, get_or, set, replicate, ◌==◌, leb, if◌then◌else◌, is_some,
}

-- `Ok`, `Ok | Grew` and `Dropped`.
pub data PushStatus : Type 0 where
  ok grew dropped : PushStatus

pub record RingBuffer (A : Type 0) : Type 0 where
  pub buf : List (Option A)
  pub head : ℕ
  pub tail : ℕ
  pub size : ℕ
  pub max_cap : ℕ

-- `i & (len - 1)`
abbrev pub masked : ℕ → ℕ → ℕ
masked i len = bit_and i (len - 1)

-- `p |= p >>> k`
abbrev pub smear : ℕ → ℕ → ℕ
smear p k = bit_or p (p / 2 ^ k)

-- The power of two that the constructor rounds up to.
unfoldable pub next_pow2 : ℕ → ℕ
next_pow2 n = smear (smear (smear (smear (smear (n - 1) 1) 2) 4) 8) 16 + 1

module _ {A : Type 0} where
  unfoldable pub make : ℕ → ℕ → RingBuffer A
  unfolding next_pow2
  make initial_capacity max_capacity =
      let init_pow = next_pow2 (max 2 initial_capacity) in
      record {
        buf = replicate init_pow none;
        head = 0;
        tail = 0;
        size = 0;
        max_cap = next_pow2 (max init_pow max_capacity);
      }

  abbrev pub capacity : RingBuffer A → ℕ
  capacity r = length r.buf

  -- The first `n` cells of the new array: the old ones from `i` on, counted from the head.
  unfoldable pub gather : List (Option A) → ℕ → ℕ → ℕ → List (Option A)
  gather old head i zero = []
  gather old head i (suc n) =
      get_or old (masked (head + i) (length old)) none ∷ gather old head (suc i) n

  unfoldable pub grow : RingBuffer A → RingBuffer A
  unfolding gather
  grow r =
      let next_len = min (length r.buf * 2) r.max_cap in
      record r {
        buf = gather r.buf r.head 0 r.size ++ replicate (next_len - r.size) none;
        head = 0;
        tail = r.size;
      }

  unfoldable pub put : A → RingBuffer A → RingBuffer A
  put value r = record r {
    buf = set r.buf r.tail (some value);
    tail = masked (r.tail + 1) (length r.buf);
    size = r.size + 1;
  }

  unfoldable pub push : A → RingBuffer A → PushStatus × RingBuffer A
  unfolding put grow
  push value r =
      if r.size == length r.buf
      then if leb r.max_cap (length r.buf) then (dropped, r) else (grew, put value (grow r))
      else (ok, put value r)

  unfoldable pub shift : RingBuffer A → Option A × RingBuffer A
  shift r = if r.size == 0 then (none, r) else (
    get_or r.buf r.head none,
    record r {
      buf = set r.buf r.head none;
      head = masked (r.head + 1) (length r.buf);
      size = r.size - 1;
    },
  )

  unfoldable pub clear : RingBuffer A → RingBuffer A
  clear r = record r { head = 0; tail = 0; size = 0 }

-- `TsBoundedRingBuffer`: a ring buffer that counts its calls.
pub record Bounded (A : Type 0) : Type 0 where
  pub inner : RingBuffer A
  pub pushes : ℕ
  pub shifts : ℕ
  pub clears : ℕ
  pub dropped_pushes : ℕ

abbrev pub dropped_bit : PushStatus → ℕ
dropped_bit ok = 0
dropped_bit grew = 0
dropped_bit dropped = 1

module _ {A : Type 0} where
  unfoldable pub bounded_make : ℕ → ℕ → Bounded A
  unfolding make
  bounded_make initial max_capacity = record {
    inner = make initial max_capacity;
    pushes = 0;
    shifts = 0;
    clears = 0;
    dropped_pushes = 0;
  }

  unfoldable pub bounded_push : A → Bounded A → PushStatus × Bounded A
  unfolding push
  bounded_push value b =
      let (status, inner) = push value b.inner in
      (
        status,
        record b {
          inner = inner;
          pushes = b.pushes + 1;
          dropped_pushes = b.dropped_pushes + dropped_bit status;
        },
      )

  unfoldable pub bounded_shift : Bounded A → Option A × Bounded A
  unfolding shift
  bounded_shift b =
      let (value, inner) = shift b.inner in
      (value, record b { inner = inner; shifts = if is_some value then b.shifts + 1 else b.shifts })

  unfoldable pub bounded_clear : Bounded A → Bounded A
  unfolding clear
  bounded_clear b = record b { inner = clear b.inner; clears = b.clears + 1 }
