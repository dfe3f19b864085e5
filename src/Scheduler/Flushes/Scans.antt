-- ===== src/Scheduler/Flushes/Scans.antt =====
-- The scan over the lanes, from the one whose turn it is.
use native.Mathlib.Nat.{mod-lt, mod-eq_of_lt, mod-add-mod, add-mod-mod, add-mod_right}
use brass_runtime.Base.{
  ℕ, zero, suc, ◌+◌, ◌-◌, ◌%◌, ◌<◌, false, List, [], ◌∷◌, length, Option, none, some, ltb, ◌==◌,
  ◌≡◌, refl, sym, ap, ◌∙◌, subst, arith, inl, inr, either_branch,
}
use brass_runtime.Ring.{bounded_shift}
use brass_runtime.Ring.Shift.{shift_refines}
use brass_runtime.Scheduler.{Options, LaneState, JsSchedulerState, queued}
use brass_runtime.Scheduler.Tags.{Represents}
use brass_runtime.Scheduler.Tags.Shifts.{lane_after_refines}
use brass_runtime.Scheduler.Flushes.{
  serve_current, current_in, shift_current, serve_scanned, scan_lane, scan, current_or_scan,
  shift_from_next_lane,
}
use brass_runtime.Scheduler.Schedules.{lane_at}
use brass_runtime.Scheduler.Schedules.Sound.{IsSound}
use brass_runtime.Scheduler.Schedules.Totals.{total, AllLanes-at}
use brass_runtime.Scheduler.Flushes.Turns.{
  Idle, Shifted, Scanned, Gives, EmptyAt, serve-Served, serve_scanned-Gives, all_empty, lane_in,
}

next_place : (rr j n : ℕ) → ((rr % n + 1) % n + j) % n ≡ (rr + suc j) % n
next_place rr j n =
    mod-add-mod (rr % n + 1) n j ∙ ap (λ (x : ℕ). x % n) (omega arith) ∙ mod-add-mod rr n (suc j)

-- The place of `i` counted from `rr`.
counted_from : (rr i n : ℕ) → i < n → (rr + (i + (n - rr % n)) % n) % n ≡ i
counted_from rr i n h =
    let below = mod-lt rr {m = n} (omega arith) in
    add-mod-mod rr (i + (n - rr % n)) n
    ∙ sym (mod-add-mod rr n (i + (n - rr % n)))
    ∙ ap (λ (x : ℕ). x % n) (omega (arith, below))
    ∙ add-mod_right i n
    ∙ mod-eq_of_lt h

served_more : (q n : ℕ) → q ≡ n → (q == 0) ≡ false → 0 < n
served_more q n e h = ground arith

module _ {K : Type 0} where
  -- A shift from an empty lane gives nothing.
  nothing_shifted : (lane : LaneState K) → Represents lane [] → (bounded_shift lane.queue).0 ≡ none
  unfolding bounded_shift
  nothing_shifted lane r = elim (shift_refines lane.queue.inner r.tasks.ring).2 [
    | inl (_, e, _) ↦ e
    | inr (more, _) ↦ absurd (omega (arith, r.tasks.sized))
  ]

  every_place :
      (lanes : List (LaneState K)) (rr : ℕ)
      → ((j : ℕ) → j < length lanes → EmptyAt lanes ((rr + j) % length lanes))
      → total lanes ≡ 0
  every_place lanes rr h = all_empty lanes (λ i l.
      subst (EmptyAt lanes) (counted_from rr i (length lanes) l) (
        h ((i + (length lanes - rr % length lanes)) % length lanes)
          (mod-lt (i + (length lanes - rr % length lanes)) (omega arith))))

  abbrev moved : JsSchedulerState K → JsSchedulerState K
  moved js = record js { rr_index = (js.rr_index % length js.lanes + 1) % length js.lanes }

  -- One empty lane more.
  one_more :
      (left : ℕ) (js : JsSchedulerState K) (r : Option K × JsSchedulerState K)
      → EmptyAt js.lanes (js.rr_index % length js.lanes)
      → Scanned left (moved js) r
      → Scanned (suc left) js r
  one_more left js (some task, end) empty s = s
  one_more left js (none, end) empty (idle, h) = (idle, empty_from)
    where
      empty_from : (j : ℕ) → j < suc left → EmptyAt js.lanes ((js.rr_index + j) % length js.lanes)
      empty_from zero l =
          subst (EmptyAt js.lanes) (ap (λ (x : ℕ). x % length js.lanes) (omega arith)) empty
      empty_from (suc j) l =
          subst (EmptyAt js.lanes) (next_place js.rr_index j (length js.lanes)) (h j (omega arith))

  turn-IsSound :
      (js : JsSchedulerState K) (rr_index rr_remaining : ℕ)
      → IsSound 0 js
      → IsSound 0 (record js { rr_index = rr_index; rr_remaining = rr_remaining })
  turn-IsSound js rr_index rr_remaining s = record {
    counts = record {
      all_lanes = s.counts.all_lanes;
      summed = s.counts.summed;
      accounted = s.counts.accounted;
      asked = s.counts.asked;
    };
    live = s.live;
  }

  idle : (js : JsSchedulerState K) → IsSound 0 js → Idle js.total_length js.flushing js.executed js
  idle js s = record { sound = s; same_total = refl; same_flushing = refl; same_executed = refl }

  only_lane :
      (lanes : List (LaneState K)) (i : ℕ) (lane : LaneState K)
      → lane_at lanes i ≡ some lane
      → queued lane ≡ 0
      → EmptyAt lanes i
  only_lane lanes i lane e h other f =
      ap (λ (o : Option (LaneState K)). queued_or o) (sym f ∙ e) ∙ h
    where
      queued_or : Option (LaneState K) → ℕ
      queued_or none = 0
      queued_or (some l) = queued l

  Gives-Scanned :
      (left : ℕ) (js : JsSchedulerState K) (r : Option K × JsSchedulerState K)
      → Gives js r
      → Scanned left js r
  Gives-Scanned left js (some task, after) g = g
  Gives-Scanned left js (none, after) g = absurd g

  scan-Scanned :
      (o : Options) (left : ℕ) (js : JsSchedulerState K)
      → IsSound 0 js
      → 0 < length js.lanes
      → Scanned left js (scan o left js)
  unfolding scan
  scan-Scanned o zero js s h = (idle js s, λ j l. absurd (omega arith))
  scan-Scanned o (suc left) js s h =
      let i = js.rr_index % length js.lanes in
      let js1 = moved js in
      let (lane, e) = lane_in js.lanes i (mod-lt js.rr_index h) in
      let (items, r) = AllLanes-at js.lanes i lane s.counts.all_lanes e in
      let rest = scan-Scanned o left js1 (turn-IsSound js js1.rr_index js.rr_remaining s) h in
      subst
        (λ (found : Option (LaneState K)).
          Scanned (suc left) js (scan_lane o i found js1 (scan o left js1)))
        (sym e)
        (either_branch (Scanned (suc left) js) (queued lane == 0)
          (λ empty.
            one_more left js (scan o left js1) (only_lane js.lanes i lane e (ground arith)) rest)
          (λ more.
            Gives-Scanned (suc left) js
              (serve_scanned (bounded_shift lane.queue).0 i (bounded_shift lane.queue).1 lane
                (record js { rr_index = js1.rr_index; rr_remaining = o.lane_budget - 1 }))
              (serve_scanned-Gives i lane
                (record js { rr_index = js1.rr_index; rr_remaining = o.lane_budget - 1 }) items
                (turn-IsSound js js1.rr_index (o.lane_budget - 1) s) e r
                (served_more (queued lane) (length items) r.tasks.sized more))))

  whole_scan :
      (o : Options) (js : JsSchedulerState K)
      → IsSound 0 js
      → 0 < length js.lanes
      → Shifted js (scan o (length js.lanes) js)
  whole_scan o js s h =
      whole (scan o (length js.lanes) js) (scan-Scanned o (length js.lanes) js s h)
    where
      whole : (r : Option K × JsSchedulerState K) → Scanned (length js.lanes) js r → Shifted js r
      whole (some task, after) t = t
      whole (none, after) (t, h) = (t, s.counts.summed ∙ every_place js.lanes js.rr_index h)

  -- The lane whose turn it is gives a task, or nothing has changed.
  abbrev Current : JsSchedulerState K → Option (K × JsSchedulerState K) → Type 0
  Current js none = Unit
  Current js (some (task, after)) = Shifted js (some task, after)

  current_in-Current :
      (i : ℕ) (found : Option (LaneState K)) (js : JsSchedulerState K)
      → IsSound 0 js
      → lane_at js.lanes i ≡ found
      → Current js (current_in i found js)
  current_in-Current i none js s e = tt
  current_in-Current i (some lane) js s e =
      let (items, r) = AllLanes-at js.lanes i lane s.counts.all_lanes e in lane_gives items r
    where
      gives_none :
          (o : Option K)
          → o ≡ none
          → Current js (serve_current o i (bounded_shift lane.queue).1 lane js)
      gives_none none f = tt
      gives_none (some task) f = cc

      lane_gives :
          (items : List (K × ℕ))
          → Represents lane items
          → Current js
              (serve_current (bounded_shift lane.queue).0 i (bounded_shift lane.queue).1 lane js)
      lane_gives [] r = gives_none (bounded_shift lane.queue).0 (nothing_shifted lane r)
      lane_gives ((task, tag) ∷ items) r =
          subst
            (λ (o : Option K). Current js (serve_current o i (bounded_shift lane.queue).1 lane js))
            (sym (lane_after_refines lane task tag items r).0)
            (serve-Served i lane (record js { rr_remaining = js.rr_remaining - 1 }) task tag items
              (turn-IsSound js js.rr_index (js.rr_remaining - 1) s) e r)

  current_or_scan-Shifted :
      (o : Options) (js : JsSchedulerState K) (current : Option (K × JsSchedulerState K))
      → IsSound 0 js
      → 0 < length js.lanes
      → Current js current
      → Shifted js (current_or_scan current o js)
  current_or_scan-Shifted o js (some (task, after)) s h c = c
  current_or_scan-Shifted o js none s h c =
      whole_scan o (record js { rr_remaining = 0 }) (turn-IsSound js js.rr_index 0 s) h

  no_lanes : (lanes : List (LaneState K)) → length lanes ≡ 0 → total lanes ≡ 0
  no_lanes [] e = refl
  no_lanes (lane ∷ lanes) e = absurd (omega arith)

  -- Where tasks wait, a shift takes one: the one that has waited longest in its lane, together
  -- with the tag that it was scheduled with. Where none waits, it takes none. The scheduler stays
  -- sound.
  pub shift_from_next_lane_lem :
      (o : Options) (js : JsSchedulerState K)
      → IsSound 0 js
      → Shifted js (shift_from_next_lane o js)
  unfolding shift_from_next_lane
  shift_from_next_lane_lem o js s =
      either_branch (Shifted js) (length js.lanes == 0)
        (λ empty. (idle js s, s.counts.summed ∙ no_lanes js.lanes (ground arith)))
        (λ some_lanes.
          let h : 0 < length js.lanes = ground arith in
          let i = (js.rr_index + length js.lanes - 1) % length js.lanes in
          either_branch (Shifted js) (ltb 0 js.rr_remaining)
            (λ _.
              current_or_scan-Shifted o js (shift_current js) s h
                (current_in-Current i (lane_at js.lanes i) js s refl))
            (λ _. whole_scan o js s h))
