-- ===== src/Scheduler/Flushes/Flushed.antt =====
-- A flush that the host runs.
use native.Mathlib.Decide.{dec_lt}
use brass_runtime.Base.{
  ℕ, zero, suc, ◌+◌, ◌≤◌, ◌<◌, ◌^◌, Bool, true, false, not, ◌&&◌, List, [], ◌∷◌, ◌++◌, length, ltb,
  ◌≡◌, refl, sym, ap, ◌∙◌, ◌⊎◌, inl, inr, arith, either_branch,
}
use brass_runtime.Scheduler.{Options, FlushKind, JsSchedulerState}
use brass_runtime.Scheduler.Flushes.{flush_loop, end_flush, flush_js, host_flush, without_first}
use brass_runtime.Scheduler.Schedules.Sound.{as_number, IsSound}
use brass_runtime.Scheduler.Flushes.Logs.{end_flush-logs}
use brass_runtime.Scheduler.Flushes.Traces.{Trace, flush_loop-Traced}
use brass_runtime.Scheduler.Flushes.Budget.{flush_loop-Looped, end_flush-Stays}

pub impossible : ◌≡◌ {A = Bool} true false → ⊥
impossible e = cc

one_less : (requests : List FlushKind) → length requests ≡ 1 → length (without_first requests) ≡ 0
one_less [] e = absurd (omega arith)
one_less (kind ∷ rest) e = omega arith

module _ {K : Type 0} (o : Options) (infer_lane : ℕ → ℕ) (calls : K → List (K × ℕ)) where
  -- A scheduler as a flush that the host was asked for starts.
  abbrev pub starting : JsSchedulerState K → JsSchedulerState K
  starting js = record js {
    requests = without_first js.requests;
    flushing = true;
    scheduled = false;
  }

  -- One flush, which ran `ran` tasks: those of `done`, which it has logged.
  pub record Flushed (js after : JsSchedulerState K) : Type 0 where
    pub sound : IsSound 0 after
    pub over : after.flushing ≡ false
    pub ran : ℕ
    pub counted : after.executed ≡ js.executed + ran
    pub done : List (K × ℕ)
    pub as_many : length done ≡ ran
    pub logged : after.ran ≡ js.ran ++ done
    pub trace : Trace o infer_lane calls done (starting js)
    pub within : ran ≤ o.flush_budget
    -- It stops within the budget only when no task waits.
    pub early : (ran ≡ o.flush_budget) ⊎ (after.total_length ≡ 0)
    pub progress : (0 < ran) ⊎ ((o.flush_budget ≡ 0) ⊎ (js.total_length ≡ 0))

  -- And if the tasks schedule no others, the number of those that wait falls.
  pub record Lowered (js after : JsSchedulerState K) : Type 0 where
    pub flushed : Flushed js after
    pub fewer : ((task : K) → calls task ≡ []) → after.total_length + flushed.ran ≡ js.total_length

  same_total :
      (ran : ℕ) (js : JsSchedulerState K) → (end_flush o ran js).total_length ≡ js.total_length
  same_total ran js =
      either_branch (λ (after : JsSchedulerState K). after.total_length ≡ js.total_length)
        (ltb 0 js.total_length && not js.scheduled) (λ _. refl) (λ _. refl)

module _ {K : Type 0} (o : Options) (infer_lane : ℕ → ℕ) (calls : K → List (K × ℕ))
    (small : o.lane_capacity ≤ 2 ^ 31) where
  early_end :
      (ran budget left : ℕ) → ran ≤ budget → (ran < budget → left ≡ 0) → (ran ≡ budget) ⊎ (left ≡ 0)
  early_end ran budget left h f = elim (dec_lt ran budget) [
    | yes less ↦ inr (f less)
    | no enough ↦ inl (omega arith)
  ]

  some_progress :
      (ran budget waiting : ℕ)
      → (0 < budget → 0 < waiting → 0 < ran)
      → (0 < ran) ⊎ ((budget ≡ 0) ⊎ (waiting ≡ 0))
  some_progress ran zero waiting f = inr (inl refl)
  some_progress ran (suc budget) zero f = inr (inr refl)
  some_progress ran (suc budget) (suc waiting) f = inl (f (omega arith) (omega arith))

  pub host_flush-Lowered :
      (js : JsSchedulerState K)
      → IsSound 0 js
      → js.flushing ≡ false
      → js.scheduled ≡ true
      → Lowered o infer_lane calls js (host_flush o infer_lane calls js)
  unfolding flush_js
  host_flush-Lowered js s quiet asked =
      let js1 = record js {
        requests = without_first js.requests;
        flushing = true;
        scheduled = false;
      } in
      let s1 : IsSound 0 js1 = record {
        counts = record {
          all_lanes = s.counts.all_lanes;
          summed = s.counts.summed;
          accounted = s.counts.accounted;
          asked = one_less js.requests (s.counts.asked ∙ ap as_number asked);
        };
        live = inl refl;
      } in
      let l = flush_loop-Looped o infer_lane calls small o.flush_budget js1 s1 in
      let d = flush_loop-Traced o infer_lane calls small o.flush_budget js1 s1 in
      let r = flush_loop o infer_lane calls o.flush_budget js1 in
      let t = end_flush-Stays o infer_lane calls small r.0 r.1 l.sound in
      let total = same_total o infer_lane calls r.0 r.1 in
      either_branch (Lowered o infer_lane calls js) js.flushing
        (λ busy. absurd (impossible (sym busy ∙ quiet)))
        (λ _. record {
          flushed = record {
            sound = t.sound;
            over = t.same_flushing;
            ran = r.0;
            counted = t.same_executed ∙ l.counted;
            done = d.done;
            as_many = d.as_many;
            logged = ap (λ (l : List (K × ℕ) × ℕ × ℕ). l.0) (end_flush-logs o r.0 r.1) ∙ d.logged;
            trace = d.trace;
            within = l.within;
            early =
                early_end r.0 o.flush_budget (end_flush o r.0 r.1).total_length l.within
                  (λ e. total ∙ l.early e);
            progress = some_progress r.0 o.flush_budget js.total_length l.progress;
          };
          fewer = λ none_called. omega (arith, total, l.fewer none_called);
        })

  pub host_flush-Flushed :
      (js : JsSchedulerState K)
      → IsSound 0 js
      → js.flushing ≡ false
      → js.scheduled ≡ true
      → Flushed o infer_lane calls js (host_flush o infer_lane calls js)
  host_flush-Flushed js s quiet asked = (host_flush-Lowered js s quiet asked).flushed
