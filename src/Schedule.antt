-- ===== src/Schedule.antt =====
-- core/runtime/schedule.ts.
-- A schedule is a record of functions on a state type of its own. Times, delays and counts are
-- natural numbers: `floor` and `max(0, x)` are the identity on them, and a cap of `Infinity` is
-- `none`. A context is its start, the reading of the clock at this step, and the attempt; names,
-- reasons and observers are left out, and so is jitter, which is of random fractions.
pub mod Combinators
pub mod Driver
pub mod Lengths
pub mod Delays
mod Tests
use brass_runtime.Base.{
  ℕ, zero, suc, ◌+◌, ◌-◌, ◌*◌, ◌^◌, min, max, Bool, true, false, not, ◌&&◌, ◌||◌, Option, none,
  some, ltb, leb, ◌==◌, if◌then◌else◌,
}

pub record Decision : Type 0 where
  pub continues : Bool
  pub delay_ms : ℕ

pub record Context : Type 0 where
  pub now : ℕ
  pub started_at_ms : ℕ
  pub attempt : ℕ

pub record Schedule (I O : Type 0) : Type 1 where
  pub State : Type 0
  pub initial : Context → State
  pub step : State → I → Context → Decision × State × O

abbrev pub decide : Bool → ℕ → Decision
decide continues delay = record { continues = continues; delay_ms = delay }

-- `Math.min(delay, cap)`
abbrev pub capped : ℕ → Option ℕ → ℕ
capped delay none = delay
capped delay (some cap) = min delay cap

module _ {I : Type 0} where
  abbrev pub recurs : ℕ → Schedule I ℕ
  recurs n = record {
    State = ℕ;
    initial = λ _. 0;
    step = λ count _ _. (decide (ltb (count + 1) n) 0, count + 1, count + 1);
  }

  abbrev pub forever : Schedule I ℕ
  forever = record {
    State = ℕ;
    initial = λ _. 0;
    step = λ count _ _. (decide true 0, count + 1, count + 1);
  }

  abbrev pub never : Schedule I ℕ
  never = record {
    State = ℕ;
    initial = λ _. 0;
    step = λ count _ _. (decide false 0, count + 1, count + 1);
  }

  abbrev pub once : Schedule I ℕ
  once = record {
    State = ℕ;
    initial = λ _. 0;
    step = λ count _ _. (decide (count == 0) 0, count + 1, count + 1);
  }

  abbrev pub fixed : ℕ → Schedule I ℕ
  fixed delay = record {
    State = ℕ;
    initial = λ _. 0;
    step = λ count _ _. (decide true delay, count + 1, count + 1);
  }

  abbrev pub exponential : ℕ → Option ℕ → Schedule I ℕ
  exponential base cap = record {
    State = ℕ;
    initial = λ _. 0;
    step = λ count _ _. (decide true (capped (base * 2 ^ count) cap), count + 1, count + 1);
  }

  abbrev pub linear : ℕ → Option ℕ → Schedule I ℕ
  linear base cap = record {
    State = ℕ;
    initial = λ _. 0;
    step = λ count _ _. (decide true (capped (base * (count + 1)) cap), count + 1, count + 1);
  }

  -- The state is `prev`, `curr` and `count`.
  abbrev pub fibonacci : ℕ → Option ℕ → Schedule I ℕ
  fibonacci base cap = record {
    State = ℕ × ℕ × ℕ;
    initial = λ _. (0, 1, 0);
    step = λ (prev, curr, count) _ _.
        (decide true (capped (base * curr) cap), (curr, prev + curr, count + 1), count + 1);
  }

  abbrev pub elapsed : ℕ → Schedule I ℕ
  elapsed max_ms = record {
    State = ℕ;
    initial = λ context. context.now;
    step = λ started_at _ context.
        (decide (ltb (context.now - started_at) max_ms) 0, started_at, context.now - started_at);
  }

  abbrev pub while_input : (I → Bool) → Schedule I I
  while_input pred = record {
    State = Unit;
    initial = λ _. tt;
    step = λ _ input _. (decide (pred input) 0, tt, input);
  }

  abbrev pub until_input : (I → Bool) → Schedule I I
  until_input pred = record {
    State = Unit;
    initial = λ _. tt;
    step = λ _ input _. (decide (not (pred input)) 0, tt, input);
  }
