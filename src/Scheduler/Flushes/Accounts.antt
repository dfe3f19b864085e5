-- ===== src/Scheduler/Flushes/Accounts.antt =====
-- How many tasks were scheduled, by the log of those that ran.
use brass_runtime.Base.{
  ℕ, zero, suc, ◌+◌, true, false, List, [], ◌∷◌, ◌++◌, length, length-append, Option, none, some,
  ◌≡◌, refl, sym, ap, ◌∙◌, arith, either_branch,
}
use brass_runtime.Scheduler.{Options, JsSchedulerState}
use brass_runtime.Scheduler.Flushes.{
  shift_from_next_lane, run_task, after_shift, flush_loop, flush_js, host_flush, end_flush,
  without_first,
}
use brass_runtime.Scheduler.Flushes.Logs.{logs, shift_from_next_lane-logs, end_flush-logs}
use brass_runtime.Scheduler.Flushes.Writes.{schedule_all-more}

module _ {K : Type 0} (calls : K → List (K × ℕ)) where
  -- How many tasks the tasks of a list schedule while they run.
  abbrev pub called : List (K × ℕ) → ℕ
  called [] = 0
  called ((task, tag) ∷ rest) = length (calls task) + called rest

  -- Each task that was run is in the log, and the tasks that were scheduled are `outside` tasks and
  -- those that the tasks of the log scheduled while they ran.
  pub record Logged (outside : ℕ) (js : JsSchedulerState K) : Type 0 where
    pub each_logged : js.executed ≡ length js.ran
    pub each_scheduled : js.enqueued ≡ outside + called js.ran

  called-append :
      (xs : List (K × ℕ)) (task : K) (tag : ℕ)
      → called (xs ++ ((task, tag) ∷ [])) ≡ called xs + length (calls task)
  called-append [] task tag = omega arith
  called-append ((t, g) ∷ xs) task tag = omega (arith, called-append xs task tag)

  pub logs-Logged :
      (n : ℕ) (js after : JsSchedulerState K) → logs after ≡ logs js → Logged n js → Logged n after
  logs-Logged n js after e l = record {
    each_logged =
        ap (λ (l : List (K × ℕ) × ℕ × ℕ). l.1) e
        ∙ l.each_logged
        ∙ ap (λ (l : List (K × ℕ) × ℕ × ℕ). length l.0) (sym e);
    each_scheduled =
        ap (λ (l : List (K × ℕ) × ℕ × ℕ). l.2) e
        ∙ l.each_scheduled
        ∙ ap (λ (l : List (K × ℕ) × ℕ × ℕ). n + called l.0) (sym e);
  }

module _ {K : Type 0} (o : Options) (infer_lane : ℕ → ℕ) (calls : K → List (K × ℕ)) where
  run_task-Logged :
      (n : ℕ) (task : K) (js : JsSchedulerState K)
      → Logged calls n js
      → Logged calls n (run_task o infer_lane calls task js)
  run_task-Logged n task js l =
      let (a, b, c) =
        schedule_all-more o infer_lane (calls task) (record js {
          executed = js.executed + 1;
          ran = js.ran ++ ((task, js.shifted_tag) ∷ []);
        }) in
      record {
        each_logged = omega (
          arith,
          b,
          l.each_logged,
          ap length a,
          length-append js.ran ((task, js.shifted_tag) ∷ []),
        );
        each_scheduled = omega (
          arith,
          c,
          l.each_scheduled,
          ap (called calls) a,
          called-append calls js.ran task js.shifted_tag,
        );
      }

  after_shift-Logged :
      (n : ℕ) (js : JsSchedulerState K) (r : Option K × JsSchedulerState K)
      (loop : JsSchedulerState K → ℕ × JsSchedulerState K)
      → logs r.1 ≡ logs js
      → Logged calls n js
      → ((js1 : JsSchedulerState K) → Logged calls n js1 → Logged calls n (loop js1).1)
      → Logged calls n (after_shift r (λ task js1. loop (run_task o infer_lane calls task js1))).1
  after_shift-Logged n js (none, after) loop e l h = logs-Logged calls n js after e l
  after_shift-Logged n js (some task, after) loop e l h =
      h (run_task o infer_lane calls task after)
        (run_task-Logged n task after (logs-Logged calls n js after e l))

  flush_loop-Logged :
      (n left : ℕ) (js : JsSchedulerState K)
      → Logged calls n js
      → Logged calls n (flush_loop o infer_lane calls left js).1
  unfolding flush_loop
  flush_loop-Logged n zero js l = l
  flush_loop-Logged n (suc left) js l =
      after_shift-Logged n js (shift_from_next_lane o js) (flush_loop o infer_lane calls left)
        (shift_from_next_lane-logs o js) l (flush_loop-Logged n left)

  pub host_flush-Logged :
      (n : ℕ) (js : JsSchedulerState K)
      → Logged calls n js
      → Logged calls n (host_flush o infer_lane calls js)
  unfolding flush_js
  host_flush-Logged n js l =
      let js1 = record js {
        requests = without_first js.requests;
        flushing = true;
        scheduled = false;
      } in
      let r = flush_loop o infer_lane calls o.flush_budget js1 in
      either_branch (Logged calls n) js.flushing (λ _. logs-Logged calls n js _ refl l)
        (λ _.
          logs-Logged calls n r.1 (end_flush o r.0 r.1) (end_flush-logs o r.0 r.1)
            (flush_loop-Logged n o.flush_budget js1 (logs-Logged calls n js js1 refl l)))
