-- ===== src/Scheduler/Flushes/Logs.antt =====
-- What is written down of the tasks: those that ran, and how many were scheduled.
use brass_runtime.Base.{
  ℕ, zero, suc, ◌+◌, ◌-◌, ◌%◌, not, ◌&&◌, List, length, Option, none, some, ltb, ◌==◌, ◌≡◌, refl,
  either_branch,
}
use brass_runtime.Ring.{Bounded, bounded_shift}
use brass_runtime.Scheduler.{Options, LaneState, JsSchedulerState, queued}
use brass_runtime.Scheduler.Schedules.{lane_at}
use brass_runtime.Scheduler.Flushes.{
  shift_from_next_lane, shift_current, current_in, serve_current, serve_scanned, scan_lane, scan,
  current_or_scan, end_flush,
}

module _ {K : Type 0} where
  -- The log of the tasks that ran, their number, and the number of the tasks that were scheduled.
  abbrev pub logs : JsSchedulerState K → List (K × ℕ) × ℕ × ℕ
  logs js = (js.ran, js.executed, js.enqueued)

  serve_scanned-logs :
      (next : Option K) (i : ℕ) (queue : Bounded K) (lane : LaneState K) (js : JsSchedulerState K)
      → logs (serve_scanned next i queue lane js).1 ≡ logs js
  serve_scanned-logs none i queue lane js = refl
  serve_scanned-logs (some task) i queue lane js = refl

  scan_lane-logs :
      (o : Options) (i : ℕ) (found : Option (LaneState K)) (js : JsSchedulerState K)
      (rest : Option K × JsSchedulerState K)
      → logs rest.1 ≡ logs js
      → logs (scan_lane o i found js rest).1 ≡ logs js
  scan_lane-logs o i none js rest h = refl
  scan_lane-logs o i (some lane) js rest h =
      either_branch (λ (r : Option K × JsSchedulerState K). logs r.1 ≡ logs js) (queued lane == 0)
        (λ _. h)
        (λ _.
          serve_scanned-logs (bounded_shift lane.queue).0 i (bounded_shift lane.queue).1 lane
            (record js { rr_remaining = o.lane_budget - 1 }))

  scan-logs : (o : Options) (left : ℕ) (js : JsSchedulerState K) → logs (scan o left js).1 ≡ logs js
  unfolding scan
  scan-logs o zero js = refl
  scan-logs o (suc left) js =
      let n = length js.lanes in
      let i = js.rr_index % n in
      let js1 = record js { rr_index = (i + 1) % n } in
      scan_lane-logs o i (lane_at js.lanes i) js1 (scan o left js1) (scan-logs o left js1)

  abbrev KeepsLogs : JsSchedulerState K → Option (K × JsSchedulerState K) → Type 0
  KeepsLogs js none = Unit
  KeepsLogs js (some (task, after)) = logs after ≡ logs js

  serve_current-logs :
      (next : Option K) (i : ℕ) (queue : Bounded K) (lane : LaneState K) (js : JsSchedulerState K)
      → KeepsLogs js (serve_current next i queue lane js)
  serve_current-logs none i queue lane js = tt
  serve_current-logs (some task) i queue lane js = refl

  current_in-logs :
      (i : ℕ) (found : Option (LaneState K)) (js : JsSchedulerState K)
      → KeepsLogs js (current_in i found js)
  current_in-logs i none js = tt
  current_in-logs i (some lane) js =
      serve_current-logs (bounded_shift lane.queue).0 i (bounded_shift lane.queue).1 lane js

  current_or_scan-logs :
      (current : Option (K × JsSchedulerState K)) (o : Options) (js : JsSchedulerState K)
      → KeepsLogs js current
      → logs (current_or_scan current o js).1 ≡ logs js
  current_or_scan-logs none o js h = scan-logs o (length js.lanes) (record js { rr_remaining = 0 })
  current_or_scan-logs (some (task, after)) o js h = h

  -- A shift writes nothing down.
  pub shift_from_next_lane-logs :
      (o : Options) (js : JsSchedulerState K) → logs (shift_from_next_lane o js).1 ≡ logs js
  unfolding shift_from_next_lane
  shift_from_next_lane-logs o js =
      let i = (js.rr_index + length js.lanes - 1) % length js.lanes in
      either_branch (λ (r : Option K × JsSchedulerState K). logs r.1 ≡ logs js)
        (length js.lanes == 0) (λ _. refl)
        (λ _.
          either_branch (λ (r : Option K × JsSchedulerState K). logs r.1 ≡ logs js)
            (ltb 0 js.rr_remaining)
            (λ _.
              current_or_scan-logs (shift_current js) o js
                (current_in-logs i (lane_at js.lanes i) js))
            (λ _. scan-logs o (length js.lanes) js))

  pub end_flush-logs :
      (o : Options) (ran : ℕ) (js : JsSchedulerState K) → logs (end_flush o ran js) ≡ logs js
  end_flush-logs o ran js =
      either_branch (λ (r : JsSchedulerState K). logs r ≡ logs js)
        (ltb 0 js.total_length && not js.scheduled) (λ _. refl) (λ _. refl)
