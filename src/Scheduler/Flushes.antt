-- ===== src/Scheduler/Flushes.antt =====
-- `shiftFromNextLane` and `flushJs`.
pub mod Turns
pub mod Scans
pub mod Budget
pub mod Flushed
pub mod Logs
pub mod Writes
pub mod Traces
pub mod Accounts
pub mod Life
use brass_runtime.Base.{
  ℕ, zero, suc, ◌+◌, ◌-◌, ◌%◌, true, false, not, ◌&&◌, ◌||◌, List, [], ◌∷◌, ◌++◌, length, Option,
  none, some, ltb, leb, ◌==◌, if◌then◌else◌,
}
use brass_runtime.Ring.{Bounded, bounded_shift}
use brass_runtime.Scheduler.{Options, FlushKind, LaneState, JsSchedulerState, queued, lane_after}
use brass_runtime.Scheduler.Schedules.{flush_kind, lane_at, put_lane, schedule_all, schedule_flush}

abbrev pub without_first : List FlushKind → List FlushKind
without_first [] = []
without_first (kind ∷ rest) = rest

module _ {K : Type 0} where
  -- A task has been shifted from the lane at `i`.
  abbrev pub serve : ℕ → Bounded K → LaneState K → JsSchedulerState K → JsSchedulerState K
  serve i queue lane js =
      let (tag, lane1) = lane_after queue lane in
      record (put_lane i lane1 js) { shifted_tag = tag; total_length = js.total_length - 1 }

  abbrev pub serve_current :
      Option K → ℕ → Bounded K → LaneState K → JsSchedulerState K → Option (K × JsSchedulerState K)
  serve_current (some task) i queue lane js =
      some (task, serve i queue lane (record js { rr_remaining = js.rr_remaining - 1 }))
  serve_current none i queue lane js = none

  abbrev pub current_in :
      ℕ → Option (LaneState K) → JsSchedulerState K → Option (K × JsSchedulerState K)
  current_in i (some lane) js =
      let (next, queue) = bounded_shift lane.queue in serve_current next i queue lane js
  current_in i none js = none

  -- The lane whose turn it is, if it has a task.
  abbrev pub shift_current : JsSchedulerState K → Option (K × JsSchedulerState K)
  shift_current js =
      let n = length js.lanes in
      let i = (js.rr_index + n - 1) % n in current_in i (lane_at js.lanes i) js

  -- In the scan the counters change before the shift, whose result is not tested.
  abbrev pub serve_scanned :
      Option K → ℕ → Bounded K → LaneState K → JsSchedulerState K → Option K × JsSchedulerState K
  serve_scanned (some task) i queue lane js = (some task, serve i queue lane js)
  serve_scanned none i queue lane js = (
    none,
    record (put_lane i (record lane { executed_tasks = lane.executed_tasks + 1 }) js) {
      total_length = js.total_length - 1;
    },
  )

  abbrev pub scan_lane :
      Options
      → ℕ
      → Option (LaneState K)
      → JsSchedulerState K
      → Option K × JsSchedulerState K
      → Option K × JsSchedulerState K
  scan_lane o i none js rest = (none, js)
  scan_lane o i (some lane) js rest =
      if queued lane == 0
      then rest
      else let (next, queue) = bounded_shift lane.queue in
        serve_scanned next i queue lane (record js { rr_remaining = o.lane_budget - 1 })

  pub scan : Options → ℕ → JsSchedulerState K → Option K × JsSchedulerState K
  scan o zero js = (none, js)
  scan o (suc left) js =
      let n = length js.lanes in
      let i = js.rr_index % n in
      let js1 = record js { rr_index = (i + 1) % n } in
      let rest = scan o left js1 in scan_lane o i (lane_at js.lanes i) js1 rest

  abbrev pub current_or_scan :
      Option (K × JsSchedulerState K) → Options → JsSchedulerState K → Option K × JsSchedulerState K
  current_or_scan (some (task, js1)) o js = (some task, js1)
  current_or_scan none o js = scan o (length js.lanes) (record js { rr_remaining = 0 })

  unfoldable pub shift_from_next_lane : Options → JsSchedulerState K → Option K × JsSchedulerState K
  unfolding scan
  shift_from_next_lane o js =
      if length js.lanes == 0
      then (none, js)
      else if ltb 0 js.rr_remaining
      then current_or_scan (shift_current js) o js
      else scan o (length js.lanes) js

  abbrev pub run_task :
      Options → (ℕ → ℕ) → (K → List (K × ℕ)) → K → JsSchedulerState K → JsSchedulerState K
  run_task o infer_lane calls task js =
      schedule_all o infer_lane (calls task)
        (record js { executed = js.executed + 1; ran = js.ran ++ ((task, js.shifted_tag) ∷ []) })

  abbrev pub after_shift :
      Option K × JsSchedulerState K
      → (K → JsSchedulerState K → ℕ × JsSchedulerState K)
      → ℕ × JsSchedulerState K
  after_shift (none, js) run = (0, js)
  after_shift (some task, js) run = let (ran, js1) = run task js in (suc ran, js1)

  -- The loop, with `left` tasks of the budget left; the answer is how many it ran.
  pub flush_loop :
      Options → (ℕ → ℕ) → (K → List (K × ℕ)) → ℕ → JsSchedulerState K → ℕ × JsSchedulerState K
  flush_loop o infer_lane calls zero js = (0, js)
  flush_loop o infer_lane calls (suc left) js =
      after_shift (shift_from_next_lane o js)
        (λ task js1. flush_loop o infer_lane calls left (run_task o infer_lane calls task js1))

  -- The `finally` block.
  abbrev pub end_flush : Options → ℕ → JsSchedulerState K → JsSchedulerState K
  end_flush o ran js =
      let js1 = record js { flushing = false; completed_flushes = js.completed_flushes + 1 } in
      let used = leb o.flush_budget ran in
      if ltb 0 js1.total_length && not js1.scheduled
      then schedule_flush (flush_kind (used || ltb o.micro_threshold js1.total_length))
          (record js1 {
            yielded_by_budget = if used then js1.yielded_by_budget + 1 else js1.yielded_by_budget;
          })
      else js1

  unfoldable pub flush_js :
      Options → (ℕ → ℕ) → (K → List (K × ℕ)) → JsSchedulerState K → JsSchedulerState K
  unfolding flush_loop
  flush_js o infer_lane calls js =
      if js.flushing
      then js
      else let (ran, js1) =
          flush_loop o infer_lane calls o.flush_budget
            (record js { flushing = true; scheduled = false }) in
        end_flush o ran js1

  -- The host runs the flush that was asked for first.
  abbrev pub host_flush :
      Options → (ℕ → ℕ) → (K → List (K × ℕ)) → JsSchedulerState K → JsSchedulerState K
  host_flush o infer_lane calls js =
      flush_js o infer_lane calls (record js { requests = without_first js.requests })

  abbrev pub new_scheduler : ℕ → JsSchedulerState K
  new_scheduler anonymous = record {
    lanes = [];
    rr_index = 0;
    rr_remaining = 0;
    flushing = false;
    scheduled = false;
    scheduled_flushes = 0;
    completed_flushes = 0;
    enqueued = 0;
    executed = 0;
    dropped_count = 0;
    yielded_by_budget = 0;
    total_length = 0;
    shifted_tag = anonymous;
    requests = [];
    ran = [];
  }
