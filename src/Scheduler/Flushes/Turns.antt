-- ===== src/Scheduler/Flushes/Turns.antt =====
-- `shiftFromNextLane`.
use brass_runtime.Base.{
  ℕ, zero, suc, ◌+◌, ◌-◌, ◌%◌, ◌<◌, Bool, List, [], ◌∷◌, length, set, Option, none, some, ◌≡◌, refl,
  sym, subst, arith,
}
use brass_runtime.Ring.{bounded_shift}
use brass_runtime.Scheduler.{LaneState, JsSchedulerState, queued, lane_after}
use brass_runtime.Scheduler.Tags.{Represents}
use brass_runtime.Scheduler.Tags.Shifts.{lane_after_refines}
use brass_runtime.Scheduler.Flushes.{serve, serve_scanned}
use brass_runtime.Scheduler.Schedules.{lane_at}
use brass_runtime.Scheduler.Schedules.Sound.{IsSound, to_Live, from_Live}
use brass_runtime.Scheduler.Schedules.Totals.{total, AllLanes-set, total-set}

module _ {K : Type 0} where
  -- The task is the first of a lane, its tag is the one that it was scheduled with, and no other
  -- task of the lane moves.
  pub record IsFirst (lanes : List (LaneState K)) (task : K) (after : JsSchedulerState K)
      : Type 0 where
    pub place : ℕ
    pub lane : LaneState K
    pub items : List (K × ℕ)
    pub found : lane_at lanes place ≡ some lane
    pub waited : Represents lane ((task, after.shifted_tag) ∷ items)
    pub lane' : LaneState K
    pub replaced : after.lanes ≡ set lanes place lane'
    pub waits : Represents lane' items

  abbrev pub EmptyAt : List (LaneState K) → ℕ → Type 0
  EmptyAt lanes i = (lane : LaneState K) → lane_at lanes i ≡ some lane → queued lane ≡ 0

  -- One task has been taken from lanes that held `waiting` of them.
  pub record Served (lanes : List (LaneState K)) (waiting : ℕ) (in_flush : Bool) (run_before : ℕ)
      (task : K) (after : JsSchedulerState K) : Type 0 where
    pub sound : IsSound 1 after
    pub one_less : after.total_length + 1 ≡ waiting
    pub same_flushing : after.flushing ≡ in_flush
    pub same_executed : after.executed ≡ run_before
    pub oldest : IsFirst lanes task after

  -- Nothing but the turn has changed.
  pub record Idle (waiting : ℕ) (in_flush : Bool) (run_before : ℕ) (after : JsSchedulerState K)
      : Type 0 where
    pub sound : IsSound 0 after
    pub same_total : after.total_length ≡ waiting
    pub same_flushing : after.flushing ≡ in_flush
    pub same_executed : after.executed ≡ run_before

  -- A shift takes a task, or else no task waits.
  abbrev pub Shifted : JsSchedulerState K → Option K × JsSchedulerState K → Type 0
  Shifted js (none, after) =
      Idle js.total_length js.flushing js.executed after × (js.total_length ≡ 0)
  Shifted js (some task, after) = Served js.lanes js.total_length js.flushing js.executed task after

  abbrev pub Gives : JsSchedulerState K → Option K × JsSchedulerState K → Type 0
  Gives js (none, after) = ⊥
  Gives js (some task, after) = Served js.lanes js.total_length js.flushing js.executed task after

  -- The same for a scan of `left` lanes.
  abbrev pub Scanned : ℕ → JsSchedulerState K → Option K × JsSchedulerState K → Type 0
  Scanned left js (none, after) =
      Idle js.total_length js.flushing js.executed after
      × ((j : ℕ) → j < left → EmptyAt js.lanes ((js.rr_index + j) % length js.lanes))
  Scanned left js (some task, after) =
      Served js.lanes js.total_length js.flushing js.executed task after

  pub serve-Served :
      (i : ℕ) (lane : LaneState K) (js : JsSchedulerState K) (task : K) (tag : ℕ)
      (items : List (K × ℕ))
      → IsSound 0 js
      → lane_at js.lanes i ≡ some lane
      → Represents lane ((task, tag) ∷ items)
      → Served js.lanes js.total_length js.flushing js.executed task
          (serve i (bounded_shift lane.queue).1 lane js)
  serve-Served i lane js task tag items s e r =
      let (_, same, r') = lane_after_refines lane task tag items r in
      let after = (lane_after (bounded_shift lane.queue).1 lane).1 in
      let sum = total-set js.lanes i lane after e in
      let size = r.tasks.sized in
      let size' = r'.tasks.sized in
      let summed = s.counts.summed in
      let fewer : (js.total_length - 1) + 1 ≡ js.total_length =
        omega (arith, summed, sum, size, size') in
      record {
        sound = record {
          counts = record {
            all_lanes = AllLanes-set js.lanes i after s.counts.all_lanes (items, r');
            summed = omega (arith, summed, sum, size, size');
            accounted = omega (arith, s.counts.accounted, fewer);
            asked = s.counts.asked;
          };
          live = to_Live js.flushing (js.total_length - 1) js.scheduled (λ f h.
              from_Live js.flushing js.total_length js.scheduled s.live f (omega (arith, fewer)));
        };
        one_less = fewer;
        same_flushing = refl;
        same_executed = refl;
        oldest = record {
          place = i;
          lane = lane;
          items = items;
          found = e;
          waited = subst (λ (t : ℕ). Represents lane ((task, t) ∷ items)) (sym same) r;
          lane' = after;
          replaced = refl;
          waits = r';
        };
      }

  -- A lane in which something waits gives a task.
  pub serve_scanned-Gives :
      (i : ℕ) (lane : LaneState K) (js : JsSchedulerState K) (items : List (K × ℕ))
      → IsSound 0 js
      → lane_at js.lanes i ≡ some lane
      → Represents lane items
      → 0 < length items
      → Gives js (serve_scanned (bounded_shift lane.queue).0 i (bounded_shift lane.queue).1 lane js)
  serve_scanned-Gives i lane js [] s e r h = absurd (omega arith)
  serve_scanned-Gives i lane js ((task, tag) ∷ items) s e r h =
      subst (λ (o : Option K). Gives js (serve_scanned o i (bounded_shift lane.queue).1 lane js))
        (sym (lane_after_refines lane task tag items r).0)
        (serve-Served i lane js task tag items s e r)

  pub all_empty :
      (lanes : List (LaneState K))
      → ((i : ℕ) → i < length lanes → EmptyAt lanes i)
      → total lanes ≡ 0
  all_empty [] h = refl
  all_empty (lane ∷ lanes) h =
      omega (arith, h 0 (omega arith) lane refl, all_empty lanes (λ i l. h (suc i) (omega arith)))

  pub lane_in :
      (lanes : List (LaneState K)) (i : ℕ)
      → i < length lanes
      → (lane : LaneState K) × (lane_at lanes i ≡ some lane)
  lane_in [] i h = absurd (omega arith)
  lane_in (lane ∷ lanes) zero h = (lane, refl)
  lane_in (lane ∷ lanes) (suc i) h = lane_in lanes i (omega arith)
