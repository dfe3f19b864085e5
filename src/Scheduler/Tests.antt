-- ===== src/Scheduler/Tests.antt =====
-- Witnesses for the theorems on the scheduler: lanes of two tasks, a lane for each tag up to 2, and
-- a task 9 that schedules 8 when it runs.
use brass_runtime.Base.{
  ℕ, ◌≤◌, ◌^◌, List, [], ◌∷◌, ◌++◌, ◌==◌, if◌then◌else◌, min, ◌≡◌, refl, arith, inl, inr,
}
use brass_runtime.Ring.{bounded_make, bounded_push, bounded_shift}
use brass_runtime.Scheduler.{Options, LaneState, JsSchedulerState, new_lane, enqueue_lane}
use brass_runtime.Scheduler.Tags.{Represents}
use brass_runtime.Scheduler.Tags.Queues.{Enqueued, enqueue_lane_refines}
use brass_runtime.Scheduler.Tags.Shifts.{Dequeued, lane_after_refines}
use brass_runtime.Scheduler.Flushes.{new_scheduler, flush_js, shift_from_next_lane}
use brass_runtime.Scheduler.Schedules.{schedule_js}
use brass_runtime.Scheduler.Schedules.Totals.{new_lane-Represents}
use brass_runtime.Scheduler.Flushes.Turns.{Shifted}
use brass_runtime.Scheduler.Flushes.Scans.{shift_from_next_lane_lem}
use brass_runtime.Scheduler.Flushes.Flushed.{Flushed}
use brass_runtime.Scheduler.Flushes.Life.{
  Action, schedules, flushes, act, act_all, IsBetween, scheduler-IsBetween,
}

abbrev options : Options
options = record {
  flush_budget = 2;
  micro_threshold = 4;
  lane_capacity = 2;
  lane_budget = 1;
  max_lanes = 3;
}

abbrev lane_of : ℕ → ℕ
lane_of tag = min tag 2

abbrev calls : ℕ → List (ℕ × ℕ)
calls task = if task == 9 then (8, 1) ∷ [] else []

abbrev three_tasks : List (Action ℕ)
three_tasks = schedules 5 1 ∷ schedules 9 2 ∷ schedules 6 3 ∷ []

abbrev busy : JsSchedulerState ℕ
busy = act_all options lane_of calls three_tasks (new_scheduler 0)

few_lanes : options.lane_capacity ≤ 2 ^ 31
few_lanes = omega arith

ran_in_turn :
    (act_all options lane_of calls (three_tasks ++ (flushes ∷ flushes ∷ [])) (new_scheduler 0)).ran
    ≡ (5, 1) ∷ (9, 2) ∷ (8, 1) ∷ (6, 3) ∷ []
unfolding act_all act schedule_js enqueue_lane bounded_push bounded_make flush_js
    shift_from_next_lane bounded_shift
ran_in_turn = refl

busy-IsBetween : IsBetween busy
busy-IsBetween = (scheduler-IsBetween options lane_of calls few_lanes 0 three_tasks).0

shift_from_next_lane_lem_example : Shifted busy (shift_from_next_lane options busy)
shift_from_next_lane_lem_example = shift_from_next_lane_lem options busy busy-IsBetween.sound

abbrev silent : ℕ → List (ℕ × ℕ)
silent task = []

abbrev fresh_lane : LaneState ℕ
fresh_lane = new_lane 3 2

fresh-Represents : Represents fresh_lane []
fresh-Represents = new_lane-Represents 3 2 (omega arith)

enqueue_lane_refines_example : Enqueued fresh_lane [] 5 1 (enqueue_lane 5 1 fresh_lane)
enqueue_lane_refines_example = enqueue_lane_refines fresh_lane [] 5 1 fresh-Represents

abbrev two_waiting : LaneState ℕ
two_waiting = (enqueue_lane 6 2 (enqueue_lane 5 1 fresh_lane).1).1

one_waits : Represents (enqueue_lane 5 1 fresh_lane).1 ((5, 1) ∷ [])
unfolding enqueue_lane bounded_push bounded_make
one_waits = elim (enqueue_lane_refines fresh_lane [] 5 1 fresh-Represents) [
  | inl (_, _, r) ↦ r
  | inr (refused, _, _) ↦ cc
]

two_waiting-Represents : Represents two_waiting ((5, 1) ∷ (6, 2) ∷ [])
unfolding enqueue_lane bounded_push bounded_make
two_waiting-Represents =
    elim (enqueue_lane_refines (enqueue_lane 5 1 fresh_lane).1 ((5, 1) ∷ []) 6 2 one_waits) [
      | inl (_, _, r) ↦ r
      | inr (refused, _, _) ↦ cc
    ]

lane_after_refines_example : Dequeued two_waiting ((6, 2) ∷ []) 5 1
lane_after_refines_example = lane_after_refines two_waiting 5 1 ((6, 2) ∷ []) two_waiting-Represents
