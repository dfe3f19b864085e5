-- ===== src/Scheduler/Flushes/Writes.antt =====
-- What a call of `schedule` writes down.
use brass_runtime.Base.{
  ℕ, suc, ◌+◌, ◌-◌, ◌≤◌, Bool, true, false, not, ◌&&◌, ◌||◌, List, [], ◌∷◌, ◌++◌, length, Option,
  none, some, ltb, leb, ◌==◌, ◌≡◌, refl, ap, ◌∙◌, arith, either_branch, subst,
}
use brass_runtime.Scheduler.{Options, LaneState, JsSchedulerState, enqueue_lane}
use brass_runtime.Scheduler.Schedules.{
  lane_at, find_lane, create_lane, found_or_create, existing_or_create, get_or_create_lane,
  schedule_in, schedule_pushed, schedule_accepted, schedule_dropped, schedule_js, schedule_all,
  overflow_key, put_lane,
}
use brass_runtime.Scheduler.Flushes.Logs.{logs}

module _ {K : Type 0} where
  -- The place that is found for a lane is a lane's.
  abbrev IsPlace : List (LaneState K) → ℕ → Type 0
  IsPlace lanes i = (lane : LaneState K) × (lane_at lanes i ≡ some lane)

  abbrev FoundAt : List (LaneState K) → ℕ → Option ℕ → Type 0
  FoundAt lanes i none = Unit
  FoundAt lanes i (some j) = (i ≤ j) × IsPlace lanes (j - i)

  from_zero : (lanes : List (LaneState K)) (i : ℕ) → IsPlace lanes (i - 0) → IsPlace lanes i
  from_zero lanes i p = let e : i - 0 ≡ i = omega arith in subst (IsPlace lanes) e p

  find_lane-FoundAt :
      (key : ℕ) (lanes : List (LaneState K)) (i : ℕ) → FoundAt lanes i (find_lane key lanes i)
  find_lane-FoundAt key [] i = tt
  find_lane-FoundAt key (lane ∷ lanes) i =
      either_branch (FoundAt (lane ∷ lanes) i) (lane.key == key)
        (λ _. (omega arith, at_place 0 (i - i) (omega arith) (lane, refl)))
        (λ _. later (find_lane key lanes (suc i)) (find_lane-FoundAt key lanes (suc i)))
    where
      at_place : (a b : ℕ) → a ≡ b → IsPlace (lane ∷ lanes) a → IsPlace (lane ∷ lanes) b
      at_place a b e p = rw (← e) p

      later : (found : Option ℕ) → FoundAt lanes (suc i) found → FoundAt (lane ∷ lanes) i found
      later none h = tt
      later (some j) (l, p) = (omega arith, at_place (suc (j - suc i)) (j - i) (omega arith) p)

  created :
      (lanes : List (LaneState K)) (lane : LaneState K)
      → IsPlace (lanes ++ (lane ∷ [])) (length lanes)
  created [] lane = (lane, refl)
  created (l ∷ lanes) lane = created lanes lane

  -- A place of a lane in a scheduler in which nothing was written down.
  abbrev Found : JsSchedulerState K → ℕ × JsSchedulerState K → Type 0
  Found js (i, after) = IsPlace after.lanes i × (logs after ≡ logs js)

  create_lane-Found :
      (capacity key : ℕ) (js : JsSchedulerState K) → Found js (create_lane capacity key js)
  create_lane-Found capacity key js = (created js.lanes _, refl)

  found_or_create-Found :
      (found : Option ℕ) (capacity key : ℕ) (js : JsSchedulerState K)
      → FoundAt js.lanes 0 found
      → Found js (found_or_create found capacity key js)
  found_or_create-Found (some i) capacity key js (_, p) = (from_zero js.lanes i p, refl)
  found_or_create-Found none capacity key js h = create_lane-Found capacity key js

  existing_or_create-Found :
      (found : Option ℕ) (o : Options) (key : ℕ) (js : JsSchedulerState K)
      → FoundAt js.lanes 0 found
      → Found js (existing_or_create found o key js)
  existing_or_create-Found (some i) o key js (_, p) = (from_zero js.lanes i p, refl)
  existing_or_create-Found none o key js h =
      either_branch (Found js) (leb o.max_lanes (length js.lanes))
        (λ _.
          found_or_create-Found (find_lane overflow_key js.lanes 0) o.lane_capacity overflow_key js
            (find_lane-FoundAt overflow_key js.lanes 0))
        (λ _. create_lane-Found o.lane_capacity key js)

  -- One task more was scheduled, and none was run.
  pub record OneMore (js after : JsSchedulerState K) : Type 0 where
    pub same_ran : after.ran ≡ js.ran
    pub same_executed : after.executed ≡ js.executed
    pub one_more : after.enqueued ≡ js.enqueued + 1

  of_logs :
      (js js1 after : JsSchedulerState K)
      → logs js1 ≡ logs js
      → logs after ≡ (js1.ran, js1.executed, js1.enqueued + 1)
      → OneMore js after
  of_logs js js1 after e f = record {
    same_ran =
        ap (λ (l : List (K × ℕ) × ℕ × ℕ). l.0) (f) ∙ ap (λ (l : List (K × ℕ) × ℕ × ℕ). l.0) e;
    same_executed =
        ap (λ (l : List (K × ℕ) × ℕ × ℕ). l.1) f ∙ ap (λ (l : List (K × ℕ) × ℕ × ℕ). l.1) e;
    one_more =
        ap (λ (l : List (K × ℕ) × ℕ × ℕ). l.2) f ∙ ap (λ (l : List (K × ℕ) × ℕ × ℕ). l.2 + 1) e;
  }

  schedule_accepted-logs :
      (o : Options) (js : JsSchedulerState K) → logs (schedule_accepted o js) ≡ logs js
  schedule_accepted-logs o js =
      either_branch (λ (r : JsSchedulerState K). logs r ≡ logs js) (js.flushing || js.scheduled)
        (λ _. refl) (λ _. refl)

  schedule_dropped-logs :
      (o : Options) (js : JsSchedulerState K) → logs (schedule_dropped o js) ≡ logs js
  schedule_dropped-logs o js =
      either_branch (λ (r : JsSchedulerState K). logs r ≡ logs js)
        (not js.flushing && not js.scheduled && ltb 0 js.total_length) (λ _. refl) (λ _. refl)

  schedule_pushed-logs :
      (o : Options) (i : ℕ) (r : Bool × LaneState K) (js : JsSchedulerState K)
      → logs (schedule_pushed o i r js).1 ≡ (js.ran, js.executed, js.enqueued + 1)
  schedule_pushed-logs o i (true, lane) js = schedule_accepted-logs o (record (put_lane i lane js) {
    enqueued = js.enqueued + 1;
    total_length = js.total_length + 1;
  })
  schedule_pushed-logs o i (false, lane) js = schedule_dropped-logs o (record (put_lane i lane js) {
    enqueued = js.enqueued + 1;
    dropped_count = js.dropped_count + 1;
  })

  schedule_in-logs :
      (o : Options) (i : ℕ) (found : Option (LaneState K)) (task : K) (tag : ℕ)
      (js : JsSchedulerState K) (lane : LaneState K)
      → found ≡ some lane
      → logs (schedule_in o i found task tag js).1 ≡ (js.ran, js.executed, js.enqueued + 1)
  schedule_in-logs o i found task tag js lane e =
      rw e (schedule_pushed-logs o i (enqueue_lane task tag lane) js)

  pub schedule_js-OneMore :
      (o : Options) (infer_lane : ℕ → ℕ) (task : K) (tag : ℕ) (js : JsSchedulerState K)
      → OneMore js (schedule_js o infer_lane task tag js).1
  unfolding schedule_js
  schedule_js-OneMore o infer_lane task tag js =
      let key = infer_lane tag in
      let (i, js1) = get_or_create_lane o key js in
      let ((lane, e), same) =
        existing_or_create-Found (find_lane key js.lanes 0) o key js
          (find_lane-FoundAt key js.lanes 0) in
      of_logs js js1 _ same (schedule_in-logs o i (lane_at js1.lanes i) task tag js1 lane e)

  -- Some tasks more.
  pub schedule_all-more :
      (o : Options) (infer_lane : ℕ → ℕ) (tasks : List (K × ℕ)) (js : JsSchedulerState K)
      → ((schedule_all o infer_lane tasks js).ran ≡ js.ran)
        × ((schedule_all o infer_lane tasks js).executed ≡ js.executed)
        × ((schedule_all o infer_lane tasks js).enqueued ≡ js.enqueued + length tasks)
  schedule_all-more o infer_lane [] js = (refl, refl, omega arith)
  schedule_all-more o infer_lane ((task, tag) ∷ rest) js =
      let h = schedule_js-OneMore o infer_lane task tag js in
      let (a, b, c) =
        schedule_all-more o infer_lane rest (schedule_js o infer_lane task tag js).1 in
      (a ∙ h.same_ran, b ∙ h.same_executed, omega (arith, c, h.one_more))
