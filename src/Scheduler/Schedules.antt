-- ===== src/Scheduler/Schedules.antt =====
-- `getOrCreateLane` and `scheduleJs`. A lane is given by its place in `laneOrder`; at a place that is
-- no lane's, which does not occur, nothing is done.
pub mod Totals
pub mod Sound
pub mod Scheduled
use brass_runtime.Base.{
  ℕ, zero, suc, ◌+◌, Bool, true, false, not, ◌&&◌, ◌||◌, List, [], ◌∷◌, ◌++◌, length, set, Option,
  none, some, ltb, leb, ◌==◌, if◌then◌else◌,
}
use brass_runtime.Scheduler.{
  Options, FlushKind, micro, macro, LaneState, JsSchedulerState, new_lane, enqueue_lane,
}

-- The name "overflow".
abbrev pub overflow_key : ℕ
overflow_key = 0

abbrev pub flush_kind : Bool → FlushKind
flush_kind late = if late then macro else micro

module _ {K : Type 0} where
  abbrev pub lane_at : List (LaneState K) → ℕ → Option (LaneState K)
  lane_at [] i = none
  lane_at (lane ∷ lanes) zero = some lane
  lane_at (lane ∷ lanes) (suc i) = lane_at lanes i

  -- `lanes.get(key)`, as the place of the lane from the `i`-th on.
  abbrev pub find_lane : ℕ → List (LaneState K) → ℕ → Option ℕ
  find_lane key [] i = none
  find_lane key (lane ∷ lanes) i =
      let rest = find_lane key lanes (suc i) in if lane.key == key then some i else rest

  abbrev pub create_lane : ℕ → ℕ → JsSchedulerState K → ℕ × JsSchedulerState K
  create_lane capacity key js =
      (length js.lanes, record js { lanes = js.lanes ++ (new_lane key capacity ∷ []) })

  abbrev pub found_or_create : Option ℕ → ℕ → ℕ → JsSchedulerState K → ℕ × JsSchedulerState K
  found_or_create (some i) capacity key js = (i, js)
  found_or_create none capacity key js = create_lane capacity key js

  abbrev pub existing_or_create :
      Option ℕ → Options → ℕ → JsSchedulerState K → ℕ × JsSchedulerState K
  existing_or_create (some i) o key js = (i, js)
  existing_or_create none o key js =
      if leb o.max_lanes (length js.lanes)
      then found_or_create (find_lane overflow_key js.lanes 0) o.lane_capacity overflow_key js
      else create_lane o.lane_capacity key js

  abbrev pub get_or_create_lane : Options → ℕ → JsSchedulerState K → ℕ × JsSchedulerState K
  get_or_create_lane o key js = existing_or_create (find_lane key js.lanes 0) o key js

  abbrev pub request_flush : FlushKind → JsSchedulerState K → JsSchedulerState K
  request_flush kind js = record js { requests = js.requests ++ (kind ∷ []) }

  abbrev pub schedule_flush : FlushKind → JsSchedulerState K → JsSchedulerState K
  schedule_flush kind js =
      request_flush kind
        (record js { scheduled = true; scheduled_flushes = js.scheduled_flushes + 1 })

  abbrev pub put_lane : ℕ → LaneState K → JsSchedulerState K → JsSchedulerState K
  put_lane i lane js = record js { lanes = set js.lanes i lane }

  -- The rest of `scheduleJs`, from the push on; the answer says whether the task was accepted.
  abbrev pub schedule_accepted : Options → JsSchedulerState K → JsSchedulerState K
  schedule_accepted o js =
      if js.flushing || js.scheduled
      then js
      else schedule_flush (flush_kind (ltb o.micro_threshold js.total_length)) js

  abbrev pub schedule_dropped : Options → JsSchedulerState K → JsSchedulerState K
  schedule_dropped o js =
      if not js.flushing && not js.scheduled && ltb 0 js.total_length
      then schedule_flush (flush_kind (ltb o.micro_threshold js.total_length)) js
      else js

  abbrev pub schedule_pushed :
      Options → ℕ → Bool × LaneState K → JsSchedulerState K → Bool × JsSchedulerState K
  schedule_pushed o i (true, lane) js =
      let js1 = put_lane i lane js in
      (
        true,
        schedule_accepted o
            (record js1 { enqueued = js.enqueued + 1; total_length = js.total_length + 1 }),
      )
  schedule_pushed o i (false, lane) js =
      let js1 = put_lane i lane js in
      (
        false,
        schedule_dropped o
            (record js1 { enqueued = js.enqueued + 1; dropped_count = js.dropped_count + 1 }),
      )

  abbrev pub schedule_in :
      Options → ℕ → Option (LaneState K) → K → ℕ → JsSchedulerState K → Bool × JsSchedulerState K
  schedule_in o i (some lane) task tag js = schedule_pushed o i (enqueue_lane task tag lane) js
  schedule_in o i none task tag js = (false, js)

  -- A task, its tag, and the lane that is inferred from the tag.
  unfoldable pub schedule_js :
      Options → (ℕ → ℕ) → K → ℕ → JsSchedulerState K → Bool × JsSchedulerState K
  schedule_js o infer_lane task tag js =
      let (i, js1) = get_or_create_lane o (infer_lane tag) js in
      schedule_in o i (lane_at js1.lanes i) task tag js1

  -- What a task schedules while it runs.
  abbrev pub schedule_all :
      Options → (ℕ → ℕ) → List (K × ℕ) → JsSchedulerState K → JsSchedulerState K
  schedule_all o infer_lane [] js = js
  schedule_all o infer_lane ((task, tag) ∷ rest) js =
      schedule_all o infer_lane rest (schedule_js o infer_lane task tag js).1
