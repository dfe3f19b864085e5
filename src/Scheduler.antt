-- ===== src/Scheduler.antt =====
-- core/runtime/scheduler.ts: the TypeScript engine with fair lanes.
-- A task is an element of `K`; `calls` lists what it passes to `schedule` when it runs, before it
-- returns or throws (the loop catches what a task throws). The lane of a tag, which `inferLane`
-- reads off its text, is a parameter, and names are numbers. `lanes` and `laneOrder` hold the same
-- lanes in one order, and are one list. `requestFlush` adds to `requests`, the flushes that the
-- host has been asked for; `ran` records what has been run. A shift from an empty ring buffer
-- changes nothing, and is not written back.
pub mod Tags
pub mod Schedules
pub mod Flushes
mod Tests
use brass_runtime.Base.{
  ℕ, zero, suc, ◌+◌, Bool, true, false, List, Option, none, some, ◌==◌, if◌then◌else◌,
}
use brass_runtime.Ring.{
  Bounded, PushStatus, ok, grew, dropped, bounded_make, bounded_push, bounded_shift,
}

pub record Options : Type 0 where
  pub flush_budget : ℕ
  pub micro_threshold : ℕ
  pub lane_capacity : ℕ
  pub lane_budget : ℕ
  pub max_lanes : ℕ

pub data FlushKind : Type 0 where
  micro macro : FlushKind

pub record LaneState (K : Type 0) : Type 0 where
  pub key : ℕ
  pub initial : ℕ
  pub max_capacity : ℕ
  pub queue : Bounded K
  pub tag_queue : Option (Bounded ℕ)
  pub shared_tag : Option ℕ
  pub enqueued_tasks : ℕ
  pub executed_tasks : ℕ
  pub dropped_tasks : ℕ

pub record JsSchedulerState (K : Type 0) : Type 0 where
  pub lanes : List (LaneState K)
  pub rr_index : ℕ
  pub rr_remaining : ℕ
  pub flushing : Bool
  pub scheduled : Bool
  pub scheduled_flushes : ℕ
  pub completed_flushes : ℕ
  pub enqueued : ℕ
  pub executed : ℕ
  pub dropped_count : ℕ
  pub yielded_by_budget : ℕ
  pub total_length : ℕ
  pub shifted_tag : ℕ
  pub requests : List FlushKind
  pub ran : List (K × ℕ)

abbrev pub is_dropped : PushStatus → Bool
is_dropped ok = false
is_dropped grew = false
is_dropped dropped = true

abbrev pub push_times : ℕ → ℕ → Bounded ℕ → Bounded ℕ
push_times zero tag tags = tags
push_times (suc n) tag tags = push_times n tag (bounded_push tag tags).1

abbrev pub or_key : Option ℕ → ℕ → ℕ
or_key (some tag) key = tag
or_key none key = key

module _ {K : Type 0} where
  abbrev pub queued : LaneState K → ℕ
  queued lane = lane.queue.inner.size

  abbrev pub new_lane : ℕ → ℕ → LaneState K
  new_lane key capacity = record {
    key = key;
    initial = capacity;
    max_capacity = capacity;
    queue = bounded_make capacity capacity;
    tag_queue = none;
    shared_tag = none;
    enqueued_tasks = 0;
    executed_tasks = 0;
    dropped_tasks = 0;
  }

  -- `recordTag` where there is no tag queue.
  abbrev pub record_shared : Option ℕ → ℕ → ℕ → LaneState K → LaneState K
  record_shared none tag queued_before lane = record lane { shared_tag = some tag }
  record_shared (some shared) tag queued_before lane =
      if queued_before == 0
      then record lane { shared_tag = some tag }
      else if shared == tag
      then lane
      else record lane {
        tag_queue =
            some
              (bounded_push tag
                (push_times queued_before shared (bounded_make lane.initial lane.max_capacity))).1;
      }

  abbrev pub record_in : Option (Bounded ℕ) → ℕ → ℕ → LaneState K → LaneState K
  record_in (some tags) tag queued_before lane = record lane {
    tag_queue = some (bounded_push tag tags).1;
  }
  record_in none tag queued_before lane = record_shared lane.shared_tag tag queued_before lane

  abbrev pub record_tag : ℕ → ℕ → LaneState K → LaneState K
  record_tag tag queued_before lane = record_in lane.tag_queue tag queued_before lane

  abbrev pub shift_tag_of : Option (Bounded ℕ) → LaneState K → ℕ × LaneState K
  shift_tag_of (some tags) lane =
      let (tag, rest) = bounded_shift tags in
      (
        or_key tag (or_key lane.shared_tag lane.key),
        if queued lane == 0
            then record lane { tag_queue = none; shared_tag = none }
            else record lane { tag_queue = some rest },
      )
  shift_tag_of none lane = (
    or_key lane.shared_tag lane.key,
    if queued lane == 0 then record lane { shared_tag = none } else lane,
  )

  abbrev pub shift_tag : LaneState K → ℕ × LaneState K
  shift_tag lane = shift_tag_of lane.tag_queue lane

  -- What `scheduleJs` does to the lane; the answer says whether the task was accepted.
  unfoldable pub enqueue_lane : K → ℕ → LaneState K → Bool × LaneState K
  enqueue_lane task tag lane =
      let (status, queue) = bounded_push task lane.queue in
      let lane1 = record lane { queue = queue; enqueued_tasks = lane.enqueued_tasks + 1 } in
      if is_dropped status
      then (false, record lane1 { dropped_tasks = lane.dropped_tasks + 1 })
      else (true, record_tag tag (queued lane) lane1)

  -- What a shift with a result does to the lane; the first part is the tag.
  abbrev pub lane_after : Bounded K → LaneState K → ℕ × LaneState K
  lane_after queue lane =
      shift_tag (record lane { queue = queue; executed_tasks = lane.executed_tasks + 1 })
