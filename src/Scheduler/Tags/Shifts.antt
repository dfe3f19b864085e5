-- ===== src/Scheduler/Tags/Shifts.antt =====
-- The first task of a lane, and its tag.
use brass_runtime.Base.{
  ℕ, suc, ◌+◌, List, [], ◌∷◌, length, get_or, Option, none, some, ◌==◌, ◌≡◌, refl, sym, ap, ◌∙◌,
  subst, arith, either_branch,
}
use brass_runtime.Ring.{Bounded, bounded_shift}
use brass_runtime.Queue.Items.{Holds, shift-Holds}
use brass_runtime.Scheduler.{LaneState, or_key, queued, shift_tag_of, shift_tag, lane_after}
use brass_runtime.Scheduler.Tags.{room, tasks_of, tags_of, HasTags, Represents}
use brass_runtime.Scheduler.Tags.Served.{Retags, retags, keeps_tags}
use brass_runtime.Scheduler.Tags.Queues.{Retags-Represents}

abbrev tail_of : {A : Type 0} → List A → List A
tail_of [] = []
tail_of (x ∷ xs) = xs

module _ {A : Type 0} where
  Holds-shift :
      (b : Bounded A) (most n : ℕ) (x : Option A) (values : List (Option A))
      → Holds b most (suc n) (x ∷ values)
      → ((bounded_shift b).0 ≡ x) × Holds (bounded_shift b).1 most n values
  Holds-shift b most n x values h =
      let (rest, split, r) = shift-Holds b h.ring (omega (arith, h.sized)) in
      let both : x ∷ values ≡ (bounded_shift b).0 ∷ rest = sym h.held ∙ split in
      (
        sym (ap (λ (c : List (Option A)). get_or c 0 x) both),
        record {
          ring = r.ring;
          bounded = r.bounded ∙ h.bounded;
          sized = omega (arith, r.sized, h.sized);
          held = r.held ∙ sym (ap (tail_of {A = Option A}) both);
        },
      )

module _ {A : Type 0} where
  empty_list : (items : List A) → length items ≡ 0 → items ≡ []
  empty_list [] e = refl
  empty_list (x ∷ xs) e = absurd (omega arith)

module _ {K : Type 0} where
  -- What `shiftTag` gives: the tag, and a lane whose tags are those of the items left.
  abbrev Shifts : List (K × ℕ) → ℕ → LaneState K → ℕ × LaneState K → Type 0
  Shifts items tag lane (shifted, after) = (shifted ≡ tag) × Retags items lane after

  shift_tag-Shifts :
      (tag_queue : Option (Bounded ℕ)) (shared : Option ℕ) (lane : LaneState K) (k : K) (tag : ℕ)
      (items : List (K × ℕ))
      → lane.tag_queue ≡ tag_queue
      → lane.shared_tag ≡ shared
      → queued lane ≡ length items
      → HasTags tag_queue shared (room lane.initial lane.max_capacity) ((k, tag) ∷ items)
      → Shifts items tag lane (shift_tag_of tag_queue lane)
  shift_tag-Shifts (some tags) shared lane k tag items q s e (h, _) =
      let (first, rest) =
        Holds-shift tags (room lane.initial lane.max_capacity) (length items) (some tag)
          (tags_of items) h in
      (
        ap (λ (o : Option ℕ). or_key o (or_key lane.shared_tag lane.key)) first,
        either_branch (Retags items lane) (queued lane == 0)
            (λ empty. retags items lane none none (empty_list items (ground arith)))
            (λ more.
              retags items lane (some (bounded_shift tags).1) lane.shared_tag (rest, ground arith)),
      )
  shift_tag-Shifts none none lane k tag items q s e t =
      absurd (omega (arith, ap (length {A = K × ℕ}) t))
  shift_tag-Shifts none (some shared) lane k tag items q s e (_, (same, all)) = (
    ap (λ (o : Option ℕ). or_key o lane.key) s ∙ sym same,
    either_branch (Retags items lane) (queued lane == 0)
        (λ empty.
          subst
            (λ (o : Option (Bounded ℕ)).
              Retags items lane (record lane { tag_queue = o; shared_tag = none }))
            (sym q) (retags items lane none none (empty_list items (ground arith))))
        (λ more.
          let t : HasTags none (some shared) (room lane.initial lane.max_capacity) items =
            (ground arith, all) in
          keeps_tags lane items q s t),
  )

  abbrev pub Dequeued : LaneState K → List (K × ℕ) → K → ℕ → Type 0
  Dequeued lane items task tag =
      ((bounded_shift lane.queue).0 ≡ some task)
      × ((lane_after (bounded_shift lane.queue).1 lane).0 ≡ tag)
      × Represents (lane_after (bounded_shift lane.queue).1 lane).1 items

  -- A shift gives the task that has waited longest in the lane, with the tag that it was
  -- scheduled with, and leaves the others with theirs.
  pub lane_after_refines :
      (lane : LaneState K) (task : K) (tag : ℕ) (items : List (K × ℕ))
      → Represents lane ((task, tag) ∷ items)
      → Dequeued lane items task tag
  lane_after_refines lane task tag items r =
      let queue = (bounded_shift lane.queue).1 in
      let lane1 = record lane { queue = queue; executed_tasks = lane.executed_tasks + 1 } in
      let (first, rest) =
        Holds-shift lane.queue (room lane.initial lane.max_capacity) (length items) (some task)
          (tasks_of items) r.tasks in
      let (same, tags) =
        shift_tag-Shifts lane.tag_queue lane.shared_tag lane1 task tag items refl refl rest.sized
          r.tags in
      (
        first,
        same,
        Retags-Represents items lane1 (shift_tag lane1).1 r.small r.max_small rest
            (omega (arith, r.counted)) tags,
      )
