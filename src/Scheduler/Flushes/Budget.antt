-- ===== src/Scheduler/Flushes/Budget.antt =====
-- The loop of `flushJs` and its `finally` block.
use brass_runtime.Base.{
  ℕ, zero, suc, ◌+◌, ◌≤◌, ◌<◌, ◌^◌, Bool, true, false, not, ◌&&◌, ◌||◌, List, [], ◌∷◌, ◌++◌, Option,
  none, some, ltb, leb, if◌then◌else◌, ◌≡◌, refl, ap, ◌∙◌, arith, either_branch, lt→ltb,
}
use brass_runtime.Scheduler.{Options, JsSchedulerState}
use brass_runtime.Scheduler.Flushes.{
  shift_from_next_lane, run_task, after_shift, flush_loop, end_flush,
}
use brass_runtime.Scheduler.Schedules.{schedule_all, flush_kind}
use brass_runtime.Scheduler.Schedules.Sound.{
  to_Live, IsCounted, IsSound, Stays, unchanged, schedule_flush-Stays,
}
use brass_runtime.Scheduler.Schedules.Scheduled.{schedule_all-Stays}
use brass_runtime.Scheduler.Flushes.Turns.{Shifted}
use brass_runtime.Scheduler.Flushes.Scans.{shift_from_next_lane_lem}

second_not : (b c : Bool) → (c && not b) ≡ true → b ≡ false
second_not false c e = refl
second_not true true e = cc
second_not true false e = cc

must_be : (b c : Bool) → (c && not b) ≡ false → c ≡ true → b ≡ true
must_be true c e f = refl
must_be false c e f = absurd (kept c e f)
  where
    kept : (c : Bool) → (c && true) ≡ false → c ≡ true → ⊥
    kept true e f = cc
    kept false e f = cc

module _ {K : Type 0} (o : Options) (infer_lane : ℕ → ℕ) (calls : K → List (K × ℕ))
    (small : o.lane_capacity ≤ 2 ^ 31) where
  -- A loop with `left` tasks of the budget: it stops early only when no task waits.
  pub record Looped (left : ℕ) (js : JsSchedulerState K) (r : ℕ × JsSchedulerState K) : Type 0 where
    pub sound : IsSound 0 r.1
    pub same_flushing : r.1.flushing ≡ js.flushing
    pub counted : r.1.executed ≡ js.executed + r.0
    pub within : r.0 ≤ left
    pub early : r.0 < left → r.1.total_length ≡ 0
    pub progress : 0 < left → 0 < js.total_length → 0 < r.0
    pub fewer : ((task : K) → calls task ≡ []) → r.1.total_length + r.0 ≡ js.total_length

  pub run_task-Stays :
      (js : JsSchedulerState K) (task : K)
      → IsSound 1 js
      → Stays 0 (record js { executed = js.executed + 1 }) (run_task o infer_lane calls task js)
  run_task-Stays js task s =
      let js1 = record js {
        executed = js.executed + 1;
        ran = js.ran ++ ((task, js.shifted_tag) ∷ []);
      } in
      let t = schedule_all-Stays o small 0 infer_lane js1 (calls task) (record {
        counts = record {
          all_lanes = s.counts.all_lanes;
          summed = s.counts.summed;
          accounted = omega (arith, s.counts.accounted);
          asked = s.counts.asked;
        };
        live = s.live;
      }) in
      record { sound = t.sound; same_flushing = t.same_flushing; same_executed = t.same_executed }

  run_task-quiet :
      (js : JsSchedulerState K) (task : K)
      → calls task ≡ []
      → (run_task o infer_lane calls task js).total_length ≡ js.total_length
  run_task-quiet js task e =
      ap
        (λ (tasks : List (K × ℕ)).
          (schedule_all o infer_lane tasks (record js {
            executed = js.executed + 1;
            ran = js.ran ++ ((task, js.shifted_tag) ∷ []);
          })).total_length)
        e

  after_shift-Looped :
      (left : ℕ) (js : JsSchedulerState K) (r : Option K × JsSchedulerState K)
      (loop : JsSchedulerState K → ℕ × JsSchedulerState K)
      → Shifted js r
      → ((js1 : JsSchedulerState K) → IsSound 0 js1 → Looped left js1 (loop js1))
      → Looped
          (suc left)
          js
          (after_shift r (λ task js1. loop (run_task o infer_lane calls task js1)))
  after_shift-Looped left js (none, after) loop (idle, empty) h = record {
    sound = idle.sound;
    same_flushing = idle.same_flushing;
    counted = omega (arith, idle.same_executed);
    within = omega arith;
    early = λ _. omega (arith, idle.same_total, empty);
    progress = λ _ l. absurd (omega (arith, empty));
    fewer = λ _. omega (arith, idle.same_total);
  }
  after_shift-Looped left js (some task, after) loop s h =
      let t = run_task-Stays after task s.sound in
      let next = run_task o infer_lane calls task after in
      let l = h next t.sound in
      record {
        sound = l.sound;
        same_flushing = l.same_flushing ∙ t.same_flushing ∙ s.same_flushing;
        counted = omega (arith, l.counted, t.same_executed, s.same_executed);
        within = omega (arith, l.within);
        early = λ e. l.early (omega arith);
        progress = λ _ _. omega arith;
        fewer = λ quiet.
            omega (arith, l.fewer quiet, run_task-quiet after task (quiet task), s.one_less);
      }

  pub flush_loop-Looped :
      (left : ℕ) (js : JsSchedulerState K)
      → IsSound 0 js
      → Looped left js (flush_loop o infer_lane calls left js)
  unfolding flush_loop
  flush_loop-Looped zero js s = record {
    sound = s;
    same_flushing = refl;
    counted = omega arith;
    within = omega arith;
    early = λ l. absurd (omega arith);
    progress = λ l _. absurd (omega arith);
    fewer = λ _. omega arith;
  }
  flush_loop-Looped (suc left) js s =
      after_shift-Looped left js (shift_from_next_lane o js) (flush_loop o infer_lane calls left)
        (shift_from_next_lane_lem o js s) (flush_loop-Looped left)

  pub end_flush-Stays :
      (ran : ℕ) (js : JsSchedulerState K)
      → IsSound 0 js
      → Stays 0 (record js { flushing = false }) (end_flush o ran js)
  end_flush-Stays ran js s =
      let js1 = record js { flushing = false; completed_flushes = js.completed_flushes + 1 } in
      let yielded =
        if leb o.flush_budget ran then js.yielded_by_budget + 1 else js.yielded_by_budget in
      let c : IsCounted 0 js1 = record {
        all_lanes = s.counts.all_lanes;
        summed = s.counts.summed;
        accounted = s.counts.accounted;
        asked = s.counts.asked;
      } in
      let c' : IsCounted 0 (record js1 { yielded_by_budget = yielded }) = record {
        all_lanes = s.counts.all_lanes;
        summed = s.counts.summed;
        accounted = s.counts.accounted;
        asked = s.counts.asked;
      } in
      let kind = flush_kind (leb o.flush_budget ran || ltb o.micro_threshold js.total_length) in
      either_branch (Stays 0 (record js { flushing = false }))
        (ltb 0 js.total_length && not js.scheduled)
        (λ both.
          let t =
            schedule_flush-Stays 0 kind (record js1 { yielded_by_budget = yielded }) c'
              (second_not js.scheduled (ltb 0 js.total_length) both) in
          record {
            sound = t.sound;
            same_flushing = t.same_flushing;
            same_executed = t.same_executed;
          })
        (λ no_more.
          let t = unchanged 0 js1 c (
            to_Live false js.total_length js.scheduled (λ _ h.
              must_be js.scheduled (ltb 0 js.total_length) no_more (lt→ltb 0 js.total_length h))) in
          record {
            sound = t.sound;
            same_flushing = t.same_flushing;
            same_executed = t.same_executed;
          })
