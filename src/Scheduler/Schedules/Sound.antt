-- ===== src/Scheduler/Schedules/Sound.antt =====
-- When the lanes, the counters and the requests of a scheduler agree; and what `scheduleJs` does
-- to them.
use brass_runtime.Base.{
  ℕ, zero, suc, ◌+◌, ◌<◌, Bool, true, false, not, ◌&&◌, ◌||◌, List, [], ◌∷◌, length, length-append,
  some, ltb, ◌≡◌, refl, sym, ap, ◌∙◌, arith, ◌⊎◌, inl, inr, either_branch, lt→ltb,
}
use brass_runtime.Scheduler.{Options, FlushKind, LaneState, JsSchedulerState}
use brass_runtime.Scheduler.Tags.{Represents}
use brass_runtime.Scheduler.Schedules.{
  lane_at, schedule_flush, flush_kind, put_lane, schedule_accepted, schedule_dropped,
}
use brass_runtime.Scheduler.Schedules.Totals.{total, AllLanes, total-set, AllLanes-set}

abbrev pub as_number : Bool → ℕ
as_number true = 1
as_number false = 0

pub impossible : ◌≡◌ {A = Bool} true false → ⊥
impossible e = cc

both_false : (a b : Bool) → (a || b) ≡ false → (a ≡ false) × (b ≡ false)
both_false false false e = (refl, refl)
both_false true b e = absurd (impossible e)
both_false false true e = absurd (impossible e)

-- A flush goes on, or no task waits, or a flush is asked for.
abbrev pub Live : Bool → ℕ → Bool → Type 0
Live flushing waiting scheduled = (flushing ≡ true) ⊎ ((waiting ≡ 0) ⊎ (scheduled ≡ true))

pub to_Live :
    (flushing : Bool) (waiting : ℕ) (scheduled : Bool)
    → (flushing ≡ false → 0 < waiting → scheduled ≡ true)
    → Live flushing waiting scheduled
to_Live true waiting scheduled h = inl refl
to_Live false zero scheduled h = inr (inl refl)
to_Live false (suc waiting) scheduled h = inr (inr (h refl (omega arith)))

pub from_Live :
    (flushing : Bool) (waiting : ℕ) (scheduled : Bool)
    → Live flushing waiting scheduled
    → flushing ≡ false
    → 0 < waiting
    → scheduled ≡ true
from_Live flushing waiting scheduled l f h = elim l [
  | inl goes_on ↦ absurd (impossible (sym goes_on ∙ f))
  | inr (inl none_waits) ↦ absurd (omega arith)
  | inr (inr asked) ↦ asked
]

the_other : (a b : Bool) → (a || b) ≡ true → a ≡ false → b ≡ true
the_other true b e f = absurd (impossible f)
the_other false b e f = e

second_not : (a b c : Bool) → (not a && not b && c) ≡ true → b ≡ false
second_not a false c e = refl
second_not true true c e = cc
second_not false true c e = cc

must_be : (a b c : Bool) → (not a && not b && c) ≡ false → a ≡ false → c ≡ true → b ≡ true
must_be a true c e f g = refl
must_be true false c e f g = absurd (impossible f)
must_be false false c e f g = absurd (impossible (sym g ∙ e))

module _ {K : Type 0} where
  -- `pending` tasks have been shifted and are not yet counted as run.
  pub record IsCounted (pending : ℕ) (js : JsSchedulerState K) : Type 0 where
    -- Each lane is a queue of tasks with their tags.
    pub all_lanes : AllLanes js.lanes
    -- `totalLength` counts the tasks in all lanes.
    pub summed : js.total_length ≡ total js.lanes
    -- A task that was scheduled was run, was dropped, or waits.
    pub accounted : js.enqueued ≡ js.executed + pending + js.dropped_count + js.total_length
    -- The host has been asked for one flush if `scheduled` is set, otherwise for none.
    pub asked : length js.requests ≡ as_number js.scheduled

  -- And outside a flush, where tasks wait, one is asked for.
  pub record IsSound (pending : ℕ) (js : JsSchedulerState K) : Type 0 where
    pub counts : IsCounted pending js
    pub live : Live js.flushing js.total_length js.scheduled

  -- Besides, nothing has been run, and a flush that goes on goes on.
  pub record Stays (pending : ℕ) (js after : JsSchedulerState K) : Type 0 where
    pub sound : IsSound pending after
    pub same_flushing : after.flushing ≡ js.flushing
    pub same_executed : after.executed ≡ js.executed

  pub schedule_flush-Stays :
      (n : ℕ) (kind : FlushKind) (js : JsSchedulerState K)
      → IsCounted n js
      → js.scheduled ≡ false
      → Stays n js (schedule_flush kind js)
  schedule_flush-Stays n kind js c e = record {
    sound = record {
      counts = record {
        all_lanes = c.all_lanes;
        summed = c.summed;
        accounted = c.accounted;
        asked = omega (arith, length-append js.requests (kind ∷ []), c.asked, ap as_number e);
      };
      live = inr (inr refl);
    };
    same_flushing = refl;
    same_executed = refl;
  }

  pub unchanged :
      (n : ℕ) (js : JsSchedulerState K)
      → IsCounted n js
      → Live js.flushing js.total_length js.scheduled
      → Stays n js js
  unchanged n js c l = record {
    sound = record { counts = c; live = l };
    same_flushing = refl;
    same_executed = refl;
  }

  pub schedule_accepted-Stays :
      (n : ℕ) (o : Options) (js : JsSchedulerState K)
      → IsCounted n js
      → Stays n js (schedule_accepted o js)
  schedule_accepted-Stays n o js c =
      either_branch (Stays n js) (js.flushing || js.scheduled)
        (λ either. unchanged n js c (
          to_Live js.flushing js.total_length js.scheduled
            (λ f _. the_other js.flushing js.scheduled either f)))
        (λ neither.
          schedule_flush-Stays n (flush_kind (ltb o.micro_threshold js.total_length)) js c
            (both_false js.flushing js.scheduled neither).1)

  pub schedule_dropped-Stays :
      (n : ℕ) (o : Options) (js : JsSchedulerState K)
      → IsCounted n js
      → Stays n js (schedule_dropped o js)
  schedule_dropped-Stays n o js c =
      either_branch (Stays n js) (not js.flushing && not js.scheduled && ltb 0 js.total_length)
        (λ all.
          schedule_flush-Stays n (flush_kind (ltb o.micro_threshold js.total_length)) js c
            (second_not js.flushing js.scheduled (ltb 0 js.total_length) all))
        (λ no. unchanged n js c (
          to_Live js.flushing js.total_length js.scheduled (λ f h.
            must_be js.flushing js.scheduled (ltb 0 js.total_length) no f
              (lt→ltb 0 js.total_length h))))

  -- The lane after a push, in its place.
  pub pushed-IsCounted :
      (n i : ℕ) (js : JsSchedulerState K) (lane after : LaneState K) (items items' : List (K × ℕ))
      (drops sum : ℕ)
      → IsCounted n js
      → lane_at js.lanes i ≡ some lane
      → Represents lane items
      → Represents after items'
      → drops + sum ≡ js.dropped_count + js.total_length + 1
      → sum + length items ≡ js.total_length + length items'
      → IsCounted n (record (put_lane i after js) {
        enqueued = js.enqueued + 1;
        dropped_count = drops;
        total_length = sum;
      })
  pushed-IsCounted n i js lane after items items' drops sum c e r r' l m = record {
    all_lanes = AllLanes-set js.lanes i after c.all_lanes (items', r');
    summed =
        omega
          (arith, c.summed, total-set js.lanes i lane after e, r.tasks.sized, r'.tasks.sized, m);
    accounted = omega (arith, c.accounted, l);
    asked = c.asked;
  }
