-- ===== src/Scheduler/Tags/Queues.antt =====
-- A lane, against a bounded queue of tasks and tags.
use brass_runtime.Base.{
  ℕ, ◌+◌, ◌≤◌, ◌<◌, ◌^◌, Bool, true, false, List, [], ◌∷◌, ◌++◌, length, length-append, ◌≡◌, ◌≢◌,
  refl, sym, ap, ◌∙◌, subst, arith, ◌⊎◌, inl, inr, either_branch,
}
use brass_runtime.Ring.{Bounded, PushStatus, ok, grew, dropped, push, bounded_push}
use brass_runtime.Ring.Valid.{contents}
use brass_runtime.Ring.Refines.{push_refines}
use brass_runtime.Queue.Items.{Holds}
use brass_runtime.Scheduler.{LaneState, is_dropped, queued, record_tag, enqueue_lane}
use brass_runtime.Scheduler.Tags.{room, tasks_of, HasTags, Represents, tasks_of-append, Holds-push}
use brass_runtime.Scheduler.Tags.Served.{Retags, record_in-Retags}

not_dropped : (s : PushStatus) → s ≢ dropped → is_dropped s ≡ false
not_dropped ok h = refl
not_dropped grew h = refl
not_dropped dropped h = absurd (h refl)

different : (b : Bool) → b ≡ true → b ≡ false → ⊥
different b e f = cc

module _ {K : Type 0} where
  -- The whole lane, from its queue and what has been done to its tags.
  pub Retags-Represents :
      (items : List (K × ℕ)) (lane after : LaneState K)
      → lane.initial ≤ 2 ^ 31
      → lane.max_capacity ≤ 2 ^ 31
      → Holds lane.queue (room lane.initial lane.max_capacity) (length items) (tasks_of items)
      → lane.enqueued_tasks ≡ lane.executed_tasks + lane.dropped_tasks + length items
      → Retags items lane after
      → Represents after items
  Retags-Represents items lane after s m h c r = record {
    small = omega (arith, r.same_initial);
    max_small = omega (arith, r.same_max);
    tasks =
        subst (λ (most : ℕ). Holds after.queue most (length items) (tasks_of items))
          (room_same lane after r.same_initial r.same_max)
          (subst
            (λ (q : Bounded K).
              Holds q (room lane.initial lane.max_capacity) (length items) (tasks_of items))
            (sym r.same_queue) h);
    tags =
        subst (λ (most : ℕ). HasTags after.tag_queue after.shared_tag most items)
          (room_same lane after r.same_initial r.same_max) r.tags;
    counted = omega (arith, r.same_enqueued, r.same_executed, r.same_dropped);
  }
    where
      room_same :
          (lane after : LaneState K)
          → after.initial ≡ lane.initial
          → after.max_capacity ≡ lane.max_capacity
          → room lane.initial lane.max_capacity ≡ room after.initial after.max_capacity
      room_same lane after e f =
          ap (λ i. room i lane.max_capacity) (sym e) ∙ ap (room after.initial) (sym f)

  -- A task and its tag at the end, if there is room; otherwise the drop is counted.
  abbrev pub Enqueued : LaneState K → List (K × ℕ) → K → ℕ → Bool × LaneState K → Type 0
  Enqueued lane items task tag (accepted, after) =
      ((accepted ≡ true)
        × (length items < room lane.initial lane.max_capacity)
        × Represents after (items ++ ((task, tag) ∷ [])))
      ⊎ ((accepted ≡ false)
          × (room lane.initial lane.max_capacity ≤ length items)
          × Represents after items)

  -- A lane takes a task with its tag at the end, and refuses it exactly if it is full.
  pub enqueue_lane_refines :
      (lane : LaneState K) (items : List (K × ℕ)) (task : K) (tag : ℕ)
      → Represents lane items
      → Enqueued lane items task tag (enqueue_lane task tag lane)
  unfolding enqueue_lane bounded_push
  enqueue_lane_refines lane items task tag r =
      let (w, same, added) = push_refines task lane.queue.inner r.tasks.ring in
      let queue = (bounded_push task lane.queue).1 in
      let lane1 = record lane { queue = queue; enqueued_tasks = lane.enqueued_tasks + 1 } in
      either_branch (Enqueued lane items task tag) (is_dropped (push task lane.queue.inner).0)
        (λ full. elim added [
          | inl (_, e, _) ↦ absurd (different _ full (not_dropped _ e))
          | inr (at_most, _, e) ↦ inr (
            refl,
            omega (arith, r.tasks.bounded, r.tasks.sized),
            record {
              small = r.small;
              max_small = r.max_small;
              tasks = record {
                ring = w;
                bounded = same ∙ r.tasks.bounded;
                sized = ap (λ b. b.size) e ∙ r.tasks.sized;
                held = ap contents e ∙ r.tasks.held;
              };
              tags = r.tags;
              counted = omega (arith, r.counted);
            },
          )
        ])
        (λ fits. elim added [
          | inr (_, e, _) ↦ absurd (different _ (ap is_dropped e) fits)
          | inl (less, _, _) ↦
              let below : length items < room lane.initial lane.max_capacity =
                omega (arith, r.tasks.bounded, r.tasks.sized) in
              let h = Holds-push task lane.queue _ _ _ r.tasks below in
              inl (
                refl,
                below,
                Retags-Represents (items ++ ((task, tag) ∷ [])) lane1
                    (record_tag tag (queued lane) lane1) r.small r.max_small
                    (record {
                      ring = h.ring;
                      bounded = h.bounded;
                      sized = omega (arith, h.sized, length-append items ((task, tag) ∷ []));
                      held = h.held ∙ sym (tasks_of-append items task tag);
                    })
                    (omega (arith, r.counted, length-append items ((task, tag) ∷ [])))
                    (record_in-Retags lane.tag_queue items lane1 task tag (queued lane) r.small
                      r.max_small r.tasks.sized (omega (arith, r.tasks.sized)) refl r.tags),
              )
        ])
