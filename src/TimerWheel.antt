-- ===== src/TimerWheel.antt =====
-- http/timerWheel.ts (`TimerWheel`): timeouts in the slots of a wheel, and short ones in a list.
-- An entry is known by a number that is never given out twice. The linked entries of a slot are a
-- list from its head; an entry that is cancelled or expired is in no list. Times are whole
-- milliseconds. The calls of callbacks are recorded in `fired`, the latest first. A callback may
-- throw, which ends the tick that called it; `throws` says which do. A callback that comes back into
-- the wheel, to schedule or to cancel, is not modelled: the code has by then read the next entry and
-- unset its timer, so such a callback can spoil a slot or set a second timeout. `timer` and
-- `fine_timer` say whether a timeout is set, after which the host calls `tick` or `fine_tick`.
pub mod Expiry
pub mod Ticks
pub mod Turn
pub mod Numbers
pub mod Timed
mod Tests
use Prim.Native.Nat.{bit_and}
use brass_runtime.Base.{
  ℕ, zero, suc, ◌+◌, ◌-◌, ◌*◌, ◌/◌, Bool, true, false, not, List, [], ◌∷◌, ◌++◌, Option, none, some,
  if◌then◌else◌, ◌==◌, leb, ltb, min, max, is_some,
}
use brass_runtime.Links.{write}

pub record Entry : Type 0 where
  pub id : ℕ
  pub deadline : ℕ
  pub slot : ℕ

pub record TimerWheel : Type 0 where
  pub tick_ms : ℕ
  pub slots : ℕ
  pub wheel : ℕ → List Entry
  pub current_tick : ℕ
  pub timer : Bool
  pub pending : ℕ
  pub fine_threshold_ms : ℕ
  pub fine : List Entry
  pub fine_timer : Bool
  pub fine_pending : ℕ
  pub made : ℕ
  pub fired : List ℕ

-- `while (slots < target) slots <<= 1;`; each round doubles, so the target is fuel enough.
unfoldable pub double_to : ℕ → ℕ → ℕ → ℕ
double_to zero slots target = slots
double_to (suc fuel) slots target =
    let rest = double_to fuel (2 * slots) target in if ltb slots target then rest else slots

abbrev pub slots_for : ℕ → ℕ
slots_for n =
    if ltb n 1 then double_to n 1 n else if bit_and n (n - 1) == 0 then n else double_to n 1 n

abbrev pub or_default : ℕ → Option ℕ → ℕ
or_default d none = d
or_default d (some n) = n

-- `Math.max(1, Math.min(16, Math.floor(ms)))`
abbrev pub clamp_tick : ℕ → ℕ
clamp_tick ms = max 1 (min 16 ms)

-- The constructor, on `tickMs`, `slots` and `fineThresholdMs`; the length of the fine ticks counts
-- for the host only.
unfoldable pub new_wheel : Option ℕ → Option ℕ → Option ℕ → TimerWheel
unfolding double_to
new_wheel tick_ms slots threshold = record {
  tick_ms = clamp_tick (or_default 10 tick_ms);
  slots = slots_for (or_default 512 slots);
  wheel = λ i. [];
  current_tick = 0;
  timer = false;
  pending = 0;
  fine_threshold_ms = or_default 50 threshold;
  fine = [];
  fine_timer = false;
  fine_pending = 0;
  made = 0;
  fired = [];
}

-- `x & this.mask`
abbrev pub masked : ℕ → ℕ → ℕ
masked x slots = bit_and x (slots - 1)

-- `Math.max(1, Math.ceil(timeoutMs / this.tickMs))`
abbrev pub ticks_for : ℕ → ℕ → ℕ
ticks_for tick_ms timeout = max 1 ((timeout + (tick_ms - 1)) / tick_ms)

abbrev pub is_due : ℕ → Entry → Bool
is_due now e = leb e.deadline now

-- The loop of a tick over the entries of a list, where `throws` says whose callbacks throw: what is
-- left in the list, the callbacks that are called, in order, and whether one of them threw. That
-- one's entry is unlinked, and the entries after it are not looked at.
abbrev pub left_over : (ℕ → Bool) → ℕ → List Entry → List Entry
left_over throws now [] = []
left_over throws now (e ∷ es) =
    let rest = left_over throws now es in
    if is_due now e then if throws e.id then es else rest else e ∷ rest

abbrev pub due : (ℕ → Bool) → ℕ → List Entry → List ℕ
due throws now [] = []
due throws now (e ∷ es) =
    let rest = due throws now es in
    if is_due now e then e.id ∷ (if throws e.id then [] else rest) else rest

abbrev pub thrown : (ℕ → Bool) → ℕ → List Entry → Bool
thrown throws now [] = false
thrown throws now (e ∷ es) =
    let rest = thrown throws now es in
    if is_due now e then if throws e.id then true else rest else rest

abbrev pub count : List ℕ → ℕ
count [] = 0
count (x ∷ xs) = suc (count xs)

abbrev pub pushed : List ℕ → List ℕ → List ℕ
pushed [] fired = fired
pushed (x ∷ xs) fired = pushed xs (x ∷ fired)

abbrev pub find : ℕ → List Entry → Option Entry
find id [] = none
find id (e ∷ es) = let rest = find id es in if e.id == id then some e else rest

abbrev pub unlink : ℕ → List Entry → List Entry
unlink id [] = []
unlink id (e ∷ es) = let rest = unlink id es in if e.id == id then es else e ∷ rest

-- `maybeStopTimer`: the timer goes on unless nothing is pending.
abbrev pub maybe_stop : ℕ → Bool → Bool
maybe_stop pending timer = if pending == 0 then false else timer

-- `ensureTimer`
abbrev pub ensure : ℕ → Bool → Bool
ensure pending timer = if ltb 0 pending then true else timer

unfoldable pub schedule_normal : ℕ → ℕ → TimerWheel → Entry × TimerWheel
schedule_normal now timeout w =
    let slot = masked (w.current_tick + ticks_for w.tick_ms timeout) w.slots in
    let entry : Entry = record { id = w.made; deadline = now + timeout; slot = slot } in
    (
      entry,
      record w {
        wheel = write w.wheel slot (entry ∷ w.wheel slot);
        pending = w.pending + 1;
        timer = ensure (w.pending + 1) w.timer;
        made = suc w.made;
      },
    )

-- The slot -1 of an entry in the fine list is written 0; nothing reads it.
unfoldable pub schedule_fine : ℕ → ℕ → TimerWheel → Entry × TimerWheel
schedule_fine now timeout w =
    let entry : Entry = record { id = w.made; deadline = now + timeout; slot = 0 } in
    (
      entry,
      record w {
        fine = entry ∷ w.fine;
        fine_pending = w.fine_pending + 1;
        fine_timer = ensure (w.fine_pending + 1) w.fine_timer;
        made = suc w.made;
      },
    )

unfoldable pub schedule : ℕ → ℕ → TimerWheel → Entry × TimerWheel
unfolding schedule_normal schedule_fine
schedule now timeout w =
    if leb timeout w.fine_threshold_ms
    then schedule_fine now timeout w
    else schedule_normal now timeout w

-- The handle's `cancel`, for an entry of the wheel: one that is no longer linked was cancelled or
-- has expired.
unfoldable pub cancel_normal : Entry → TimerWheel → TimerWheel
cancel_normal e w =
    if is_some (find e.id (w.wheel e.slot))
    then record w {
      wheel = write w.wheel e.slot (unlink e.id (w.wheel e.slot));
      pending = w.pending - 1;
      timer = maybe_stop (w.pending - 1) w.timer;
    }
    else w

unfoldable pub cancel_fine : Entry → TimerWheel → TimerWheel
cancel_fine e w =
    if is_some (find e.id w.fine)
    then record w {
      fine = unlink e.id w.fine;
      fine_pending = w.fine_pending - 1;
      fine_timer = maybe_stop (w.fine_pending - 1) w.fine_timer;
    }
    else w

-- The timer is unset, and set again behind the loop, which a callback that throws does not reach.
unfoldable pub tick : (ℕ → Bool) → ℕ → TimerWheel → TimerWheel
tick throws now w =
    let slot = masked (w.current_tick + 1) w.slots in
    let es = w.wheel slot in
    let pending = w.pending - count (due throws now es) in
    record w {
      current_tick = slot;
      wheel = write w.wheel slot (left_over throws now es);
      pending = pending;
      fired = pushed (due throws now es) w.fired;
      timer = if thrown throws now es then false else ltb 0 pending;
    }

unfoldable pub fine_tick : (ℕ → Bool) → ℕ → TimerWheel → TimerWheel
fine_tick throws now w =
    let pending = w.fine_pending - count (due throws now w.fine) in
    record w {
      fine = left_over throws now w.fine;
      fine_pending = pending;
      fired = pushed (due throws now w.fine) w.fired;
      fine_timer = if thrown throws now w.fine then false else ltb 0 pending;
    }

unfoldable pub destroy : TimerWheel → TimerWheel
destroy w = record w {
  wheel = λ i. if ltb i w.slots then [] else w.wheel i;
  pending = 0;
  timer = false;
  fine = [];
  fine_pending = 0;
  fine_timer = false;
}

-- Ticks at the given times.
unfoldable pub turn : (ℕ → Bool) → List ℕ → TimerWheel → TimerWheel
unfolding tick
turn throws [] w = w
turn throws (now ∷ times) w = turn throws times (tick throws now w)
