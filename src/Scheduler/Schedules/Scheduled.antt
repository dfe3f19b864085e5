-- ===== src/Scheduler/Schedules/Scheduled.antt =====
-- What `scheduleJs` does to a scheduler.
use brass_runtime.Base.{
  ℕ, ◌+◌, ◌≤◌, ◌^◌, Bool, true, false, List, [], ◌∷◌, ◌++◌, length, length-append, Option, none,
  some, leb, ◌≡◌, refl, sym, ◌∙◌, arith, inl, inr, either_branch,
}
use brass_runtime.Scheduler.{Options, LaneState, JsSchedulerState, new_lane, enqueue_lane}
use brass_runtime.Scheduler.Tags.{Represents}
use brass_runtime.Scheduler.Tags.Queues.{Enqueued, enqueue_lane_refines}
use brass_runtime.Scheduler.Schedules.{
  lane_at, find_lane, create_lane, found_or_create, existing_or_create, get_or_create_lane,
  put_lane, schedule_pushed, schedule_in, schedule_js, schedule_all, overflow_key,
}
use brass_runtime.Scheduler.Schedules.Sound.{
  IsCounted, IsSound, Stays, impossible, unchanged, pushed-IsCounted, schedule_accepted-Stays,
  schedule_dropped-Stays,
}
use brass_runtime.Scheduler.Schedules.Totals.{
  AllLanes-at, AllLanes-append, total-append, new_lane-Represents,
}

module _ {K : Type 0} (o : Options) (small : o.lane_capacity ≤ 2 ^ 31) where
  create_lane-Stays :
      (n key : ℕ) (js : JsSchedulerState K)
      → IsSound n js
      → Stays n js (create_lane o.lane_capacity key js).1
  create_lane-Stays n key js s =
      let r = new_lane-Represents {K = K} key o.lane_capacity small in
      record {
        sound = record {
          counts = record {
            all_lanes =
                AllLanes-append js.lanes (new_lane key o.lane_capacity) s.counts.all_lanes ([], r);
            summed = omega (
              arith,
              s.counts.summed,
              r.tasks.sized,
              total-append js.lanes (new_lane key o.lane_capacity),
            );
            accounted = s.counts.accounted;
            asked = s.counts.asked;
          };
          live = s.live;
        };
        same_flushing = refl;
        same_executed = refl;
      }

  found_or_create-Stays :
      (found : Option ℕ) (n key : ℕ) (js : JsSchedulerState K)
      → IsSound n js
      → Stays n js (found_or_create found o.lane_capacity key js).1
  found_or_create-Stays (some i) n key js s = unchanged n js s.counts s.live
  found_or_create-Stays none n key js s = create_lane-Stays n key js s

  get_or_create_lane-Stays :
      (found : Option ℕ) (n key : ℕ) (js : JsSchedulerState K)
      → IsSound n js
      → Stays n js (existing_or_create found o key js).1
  get_or_create_lane-Stays (some i) n key js s = unchanged n js s.counts s.live
  get_or_create_lane-Stays none n key js s =
      either_branch (λ (r : ℕ × JsSchedulerState K). Stays n js r.1)
        (leb o.max_lanes (length js.lanes))
        (λ full. found_or_create-Stays (find_lane overflow_key js.lanes 0) n overflow_key js s)
        (λ fits. create_lane-Stays n key js s)

  Stays-from :
      (n : ℕ) (js middle after : JsSchedulerState K)
      → middle.flushing ≡ js.flushing
      → middle.executed ≡ js.executed
      → Stays n middle after
      → Stays n js after
  Stays-from n js middle after f e t = record {
    sound = t.sound;
    same_flushing = t.same_flushing ∙ f;
    same_executed = t.same_executed ∙ e;
  }

  schedule_pushed-Stays :
      (n i : ℕ) (js : JsSchedulerState K) (lane : LaneState K) (items : List (K × ℕ)) (task : K)
      (tag : ℕ) (r : Bool × LaneState K)
      → IsCounted n js
      → lane_at js.lanes i ≡ some lane
      → Represents lane items
      → Enqueued lane items task tag r
      → Stays n js (schedule_pushed o i r js).1
  schedule_pushed-Stays n i js lane items task tag (true, after) c e r q = elim q [
    | inl (_, _, r') ↦
        let js1 = record (put_lane i after js) {
          enqueued = js.enqueued + 1;
          total_length = js.total_length + 1;
        } in
        Stays-from n js js1 _ refl refl (
          schedule_accepted-Stays n o js1 (
            pushed-IsCounted n i js lane after items (items ++ ((task, tag) ∷ [])) js.dropped_count
              (js.total_length + 1) c e r r' (omega arith)
              (omega (arith, length-append items ((task, tag) ∷ [])))))
    | inr (refused, _, _) ↦ absurd (impossible refused)
  ]
  schedule_pushed-Stays n i js lane items task tag (false, after) c e r q = elim q [
    | inl (taken, _, _) ↦ absurd (impossible (sym taken))
    | inr (_, _, r') ↦
        let js1 = record (put_lane i after js) {
          enqueued = js.enqueued + 1;
          dropped_count = js.dropped_count + 1;
        } in
        Stays-from n js js1 _ refl refl (
          schedule_dropped-Stays n o js1 (
            pushed-IsCounted n i js lane after items items (js.dropped_count + 1) js.total_length c
              e r r' (omega arith) (omega arith)))
  ]

  schedule_in-Stays :
      (n i : ℕ) (found : Option (LaneState K)) (js : JsSchedulerState K) (task : K) (tag : ℕ)
      → IsSound n js
      → lane_at js.lanes i ≡ found
      → Stays n js (schedule_in o i found task tag js).1
  schedule_in-Stays n i none js task tag s e = unchanged n js s.counts s.live
  schedule_in-Stays n i (some lane) js task tag s e =
      let (items, r) = AllLanes-at js.lanes i lane s.counts.all_lanes e in
      schedule_pushed-Stays n i js lane items task tag (enqueue_lane task tag lane) s.counts e r
        (enqueue_lane_refines lane items task tag r)

  -- A call of `schedule` keeps a scheduler sound, during a flush and outside one, whether it makes
  -- a lane or not and whether the task is accepted or dropped; and it runs no task.
  pub schedule_js-Stays :
      (n : ℕ) (infer_lane : ℕ → ℕ) (js : JsSchedulerState K) (task : K) (tag : ℕ)
      → IsSound n js
      → Stays n js (schedule_js o infer_lane task tag js).1
  unfolding schedule_js
  schedule_js-Stays n infer_lane js task tag s =
      let key = infer_lane tag in
      let (i, js1) = get_or_create_lane o key js in
      let made = get_or_create_lane-Stays (find_lane key js.lanes 0) n key js s in
      Stays-from n js js1 _ made.same_flushing made.same_executed
        (schedule_in-Stays n i (lane_at js1.lanes i) js1 task tag made.sound refl)

  pub schedule_all-Stays :
      (n : ℕ) (infer_lane : ℕ → ℕ) (js : JsSchedulerState K) (tasks : List (K × ℕ))
      → IsSound n js
      → Stays n js (schedule_all o infer_lane tasks js)
  schedule_all-Stays n infer_lane js [] s = unchanged n js s.counts s.live
  schedule_all-Stays n infer_lane js ((task, tag) ∷ rest) s =
      let t = schedule_js-Stays n infer_lane js task tag s in
      Stays-from n js (schedule_js o infer_lane task tag js).1 _ t.same_flushing t.same_executed
        (schedule_all-Stays n infer_lane (schedule_js o infer_lane task tag js).1 rest t.sound)
