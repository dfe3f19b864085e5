-- ===== src/Scheduler/Flushes/Life.antt =====
-- A scheduler over its whole life.
use brass_runtime.Base.{
  ℕ, zero, suc, ◌≤◌, ◌<◌, ◌^◌, Bool, true, false, List, [], ◌∷◌, length, ltb, ◌+◌, ap, ◌≡◌, refl,
  ◌∙◌, inl, inr, arith,
}
use brass_runtime.Scheduler.{Options, JsSchedulerState}
use brass_runtime.Scheduler.Flushes.{host_flush, new_scheduler}
use brass_runtime.Scheduler.Schedules.{schedule_js}
use brass_runtime.Scheduler.Schedules.Sound.{as_number, IsSound}
use brass_runtime.Scheduler.Schedules.Scheduled.{schedule_js-Stays}
use brass_runtime.Scheduler.Flushes.Writes.{schedule_js-OneMore}
use brass_runtime.Scheduler.Flushes.Accounts.{called, Logged, host_flush-Logged}
use brass_runtime.Scheduler.Flushes.Flushed.{host_flush-Flushed}

-- What is done to a scheduler from outside: a call of `schedule`, and a flush by the host, which
-- does nothing where none has been asked for.
pub data Action (K : Type 0) : Type 0 where
  schedules : K → ℕ → Action K
  flushes : Action K

module _ {K : Type 0} where
  -- How many tasks are scheduled from outside.
  abbrev pub scheduled_by : List (Action K) → ℕ
  scheduled_by [] = 0
  scheduled_by (schedules task tag ∷ rest) = suc (scheduled_by rest)
  scheduled_by (flushes ∷ rest) = scheduled_by rest

  -- Between two actions a scheduler is sound, and no flush goes on.
  pub record IsBetween (js : JsSchedulerState K) : Type 0 where
    pub sound : IsSound 0 js
    pub quiet : js.flushing ≡ false

module _ {K : Type 0} (o : Options) (infer_lane : ℕ → ℕ) (calls : K → List (K × ℕ)) where
  abbrev pub host_act : Bool → JsSchedulerState K → JsSchedulerState K
  host_act true js = host_flush o infer_lane calls js
  host_act false js = js

  unfoldable pub act : Action K → JsSchedulerState K → JsSchedulerState K
  act (schedules task tag) js = (schedule_js o infer_lane task tag js).1
  act flushes js = host_act (ltb 0 (length js.requests)) js

  unfoldable pub act_all : List (Action K) → JsSchedulerState K → JsSchedulerState K
  unfolding act
  act_all [] js = js
  act_all (action ∷ rest) js = act_all rest (act action js)

  abbrev pub flushes_times : ℕ → JsSchedulerState K → JsSchedulerState K
  flushes_times zero js = js
  flushes_times (suc n) js = flushes_times n (act flushes js)

module _ {K : Type 0} (o : Options) (infer_lane : ℕ → ℕ) (calls : K → List (K × ℕ))
    (small : o.lane_capacity ≤ 2 ^ 31) where
  bit_of : (b : Bool) (n : ℕ) → n ≡ as_number b → 0 < n → b ≡ true
  bit_of true n e h = refl
  bit_of false n e h = absurd (omega (arith, e))

  host_act-IsBetween :
      (b : Bool) (js : JsSchedulerState K)
      → ltb 0 (length js.requests) ≡ b
      → IsBetween js
      → IsBetween (host_act o infer_lane calls b js)
  host_act-IsBetween false js e i = i
  host_act-IsBetween true js e i =
      let asked = bit_of js.scheduled (length js.requests) i.sound.counts.asked (ground arith) in
      let f = host_flush-Flushed o infer_lane calls small js i.sound i.quiet asked in
      record { sound = f.sound; quiet = f.over }

  act-IsBetween :
      (action : Action K) (js : JsSchedulerState K)
      → IsBetween js
      → IsBetween (act o infer_lane calls action js)
  unfolding act
  act-IsBetween (schedules task tag) js i =
      let t = schedule_js-Stays o small 0 infer_lane js task tag i.sound in
      record { sound = t.sound; quiet = t.same_flushing ∙ i.quiet }
  act-IsBetween flushes js i = host_act-IsBetween (ltb 0 (length js.requests)) js refl i

  act_all-IsBetween :
      (actions : List (Action K)) (js : JsSchedulerState K)
      → IsBetween js
      → IsBetween (act_all o infer_lane calls actions js)
  unfolding act_all
  act_all-IsBetween [] js i = i
  act_all-IsBetween (action ∷ rest) js i =
      act_all-IsBetween rest (act o infer_lane calls action js) (act-IsBetween action js i)

  pub new_scheduler-IsBetween : (anonymous : ℕ) → IsBetween (new_scheduler {K = K} anonymous)
  new_scheduler-IsBetween anonymous = record {
    sound = record {
      counts = record { all_lanes = tt; summed = refl; accounted = refl; asked = refl };
      live = inr (inl refl);
    };
    quiet = refl;
  }

  host_act-Logged :
      (b : Bool) (n : ℕ) (js : JsSchedulerState K)
      → Logged calls n js
      → Logged calls n (host_act o infer_lane calls b js)
  host_act-Logged true n js l = host_flush-Logged o infer_lane calls n js l
  host_act-Logged false n js l = l

  act_all-Logged :
      (actions : List (Action K)) (n : ℕ) (js : JsSchedulerState K)
      → Logged calls n js
      → Logged calls (n + scheduled_by actions) (act_all o infer_lane calls actions js)
  unfolding act_all act
  act_all-Logged [] n js l = record {
    each_logged = l.each_logged;
    each_scheduled = omega (arith, l.each_scheduled);
  }
  act_all-Logged (schedules task tag ∷ rest) n js l =
      let h = schedule_js-OneMore o infer_lane task tag js in
      let next = (schedule_js o infer_lane task tag js).1 in
      let later = act_all-Logged rest (n + 1) next (record {
        each_logged = omega (arith, h.same_executed, l.each_logged, ap length h.same_ran);
        each_scheduled = omega (arith, h.one_more, l.each_scheduled, ap (called calls) h.same_ran);
      }) in
      record {
        each_logged = later.each_logged;
        each_scheduled = omega (arith, later.each_scheduled);
      }
  act_all-Logged (flushes ∷ rest) n js l =
      act_all-Logged rest n (act o infer_lane calls flushes js)
        (host_act-Logged (ltb 0 (length js.requests)) n js l)

  pub scheduler-IsBetween :
      (anonymous : ℕ) (actions : List (Action K))
      → IsBetween (act_all o infer_lane calls actions (new_scheduler anonymous))
        × Logged calls
            (scheduled_by actions)
            (act_all o infer_lane calls actions (new_scheduler anonymous))
  scheduler-IsBetween anonymous actions =
      let l = act_all-Logged actions 0 (new_scheduler anonymous) new_scheduler-Logged in
      (
        act_all-IsBetween actions (new_scheduler anonymous) (new_scheduler-IsBetween anonymous),
        record { each_logged = l.each_logged; each_scheduled = omega (arith, l.each_scheduled) },
      )
    where
      new_scheduler-Logged : Logged calls 0 (new_scheduler anonymous)
      new_scheduler-Logged = record { each_logged = refl; each_scheduled = refl }
