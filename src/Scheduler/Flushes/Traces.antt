-- ===== src/Scheduler/Flushes/Traces.antt =====
-- Which tasks a flush runs.
use mathlib.Core.List.{append_assoc, append-nil}
use brass_runtime.Base.{
  ℕ, zero, suc, ◌+◌, ◌≤◌, ◌^◌, List, [], ◌∷◌, ◌++◌, length, Option, none, some, ◌≡◌, refl, sym, ap,
  ◌∙◌,
}
use brass_runtime.Scheduler.{Options, JsSchedulerState}
use brass_runtime.Scheduler.Flushes.{shift_from_next_lane, run_task, after_shift, flush_loop}
use brass_runtime.Scheduler.Schedules.{schedule_all}
use brass_runtime.Scheduler.Schedules.Sound.{IsSound}
use brass_runtime.Scheduler.Flushes.Turns.{Served, Shifted}
use brass_runtime.Scheduler.Flushes.Scans.{shift_from_next_lane_lem}
use brass_runtime.Scheduler.Flushes.Budget.{run_task-Stays}
use brass_runtime.Scheduler.Flushes.Logs.{logs, shift_from_next_lane-logs}
use brass_runtime.Scheduler.Flushes.Writes.{schedule_all-more}

module _ {K : Type 0} (o : Options) (infer_lane : ℕ → ℕ) (calls : K → List (K × ℕ)) where
  -- The tasks of the list are run from a scheduler one after the other: each is taken from a lane
  -- in which it waited first, with the tag that it was scheduled with, and logged, and what it
  -- schedules while it runs is scheduled before the next one is taken.
  abbrev pub Trace : List (K × ℕ) → JsSchedulerState K → Type 0
  Trace [] js = Unit
  Trace ((task, tag) ∷ rest) js =
      (middle : JsSchedulerState K) × Served js.lanes js.total_length js.flushing js.executed task
        middle
      × (middle.shifted_tag ≡ tag)
      × Trace rest (
          schedule_all o infer_lane (calls task) (record middle {
            executed = middle.executed + 1;
            ran = middle.ran ++ ((task, tag) ∷ []);
          }))

  -- The loop of a flush that ran the tasks of a list, and logged them.
  pub record Traced (js : JsSchedulerState K) (r : ℕ × JsSchedulerState K) : Type 0 where
    pub done : List (K × ℕ)
    pub trace : Trace done js
    pub logged : r.1.ran ≡ js.ran ++ done
    pub as_many : length done ≡ r.0

module _ {K : Type 0} (o : Options) (infer_lane : ℕ → ℕ) (calls : K → List (K × ℕ))
    (small : o.lane_capacity ≤ 2 ^ 31) where
  after_shift-Traced :
      (js : JsSchedulerState K) (r : Option K × JsSchedulerState K)
      (loop : JsSchedulerState K → ℕ × JsSchedulerState K)
      → Shifted js r
      → logs r.1 ≡ logs js
      → ((js1 : JsSchedulerState K) → IsSound 0 js1 → Traced o infer_lane calls js1 (loop js1))
      → Traced o infer_lane calls js
          (after_shift r (λ task js1. loop (run_task o infer_lane calls task js1)))
  after_shift-Traced js (none, after) loop s e h = record {
    done = [];
    trace = tt;
    logged = ap (λ (l : List (K × ℕ) × ℕ × ℕ). l.0) e ∙ sym (append-nil js.ran);
    as_many = refl;
  }
  after_shift-Traced js (some task, after) loop s e h =
      let next = run_task o infer_lane calls task after in
      let t = h next (run_task-Stays o infer_lane calls small after task s.sound).sound in
      let (kept, _, _) = schedule_all-more o infer_lane (calls task) (record after {
        executed = after.executed + 1;
        ran = after.ran ++ ((task, after.shifted_tag) ∷ []);
      }) in
      record {
        done = (task, after.shifted_tag) ∷ t.done;
        trace = (after, s, refl, t.trace);
        logged =
            t.logged
            ∙ ap (λ xs. xs ++ t.done) kept
            ∙ append_assoc after.ran ((task, after.shifted_tag) ∷ []) t.done
            ∙ ap (λ (l : List (K × ℕ) × ℕ × ℕ). l.0 ++ ((task, after.shifted_tag) ∷ t.done)) e;
        as_many = ap suc t.as_many;
      }

  pub flush_loop-Traced :
      (left : ℕ) (js : JsSchedulerState K)
      → IsSound 0 js
      → Traced o infer_lane calls js (flush_loop o infer_lane calls left js)
  unfolding flush_loop
  flush_loop-Traced zero js s = record {
    done = [];
    trace = tt;
    logged = sym (append-nil js.ran);
    as_many = refl;
  }
  flush_loop-Traced (suc left) js s =
      after_shift-Traced js (shift_from_next_lane o js) (flush_loop o infer_lane calls left)
        (shift_from_next_lane_lem o js s) (shift_from_next_lane-logs o js) (flush_loop-Traced left)
