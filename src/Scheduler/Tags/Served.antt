-- ===== src/Scheduler/Tags/Served.antt =====
-- A lane as a queue of tasks with their tags.
use brass_runtime.Base.{
  ℕ, ◌+◌, ◌≤◌, ◌<◌, ◌^◌, List, [], ◌∷◌, ◌++◌, length, replicate, length-append, Option, none, some,
  ◌==◌, ◌≡◌, refl, sym, ap, ◌∙◌, subst, arith, either_branch,
}
use brass_runtime.Ring.{Bounded, bounded_make, bounded_push}
use brass_runtime.Queue.Items.{Holds}
use brass_runtime.Scheduler.{LaneState, push_times, record_shared, record_in}
use brass_runtime.Scheduler.Tags.{
  room, tags_of, AllTagged, SharesTag, HasTags, tags_of-append, tags_of-all, AllTagged-append,
  Holds-push, Holds-times, made-Holds,
}

module _ {K : Type 0} where
  -- What an operation on the tags leaves: the rest of the lane, and tags for these items.
  pub record Retags (items : List (K × ℕ)) (lane after : LaneState K) : Type 0 where
    pub same_queue : after.queue ≡ lane.queue
    pub same_initial : after.initial ≡ lane.initial
    pub same_max : after.max_capacity ≡ lane.max_capacity
    pub same_enqueued : after.enqueued_tasks ≡ lane.enqueued_tasks
    pub same_executed : after.executed_tasks ≡ lane.executed_tasks
    pub same_dropped : after.dropped_tasks ≡ lane.dropped_tasks
    pub tags : HasTags after.tag_queue after.shared_tag (room lane.initial lane.max_capacity) items

  -- Only the two fields of the tags are written.
  pub retags :
      (items : List (K × ℕ)) (lane : LaneState K) (tag_queue : Option (Bounded ℕ))
      (shared : Option ℕ)
      → HasTags tag_queue shared (room lane.initial lane.max_capacity) items
      → Retags items lane (record lane { tag_queue = tag_queue; shared_tag = shared })
  retags items lane tag_queue shared t = record {
    same_queue = refl;
    same_initial = refl;
    same_max = refl;
    same_enqueued = refl;
    same_executed = refl;
    same_dropped = refl;
    tags = t;
  }

  last_is_some : (items : List (K × ℕ)) (x : K × ℕ) → 0 < length (items ++ (x ∷ []))
  last_is_some items x = omega (arith, length-append items (x ∷ []))

  -- The tags written out, and then the new one.
  written_out :
      (items : List (K × ℕ)) (k : K) (tag n shared initial max_capacity : ℕ)
      → initial ≤ 2 ^ 31
      → max_capacity ≤ 2 ^ 31
      → n ≡ length items
      → n < room initial max_capacity
      → AllTagged shared items
      → Holds
          (bounded_push tag (push_times n shared (bounded_make initial max_capacity))).1
          (room initial max_capacity)
          (length (items ++ ((k, tag) ∷ [])))
          (tags_of (items ++ ((k, tag) ∷ [])))
  written_out items k tag n shared initial max_capacity s m e l all =
      let tags = push_times n shared (bounded_make initial max_capacity) in
      let filled =
        Holds-times n shared (bounded_make initial max_capacity) (room initial max_capacity) 0 []
          (made-Holds initial max_capacity s m) (omega arith) in
      let p =
        Holds-push tag tags (room initial max_capacity) (0 + n) (replicate n (some shared)) filled
          (omega arith) in
      record {
        ring = p.ring;
        bounded = p.bounded;
        sized = omega (arith, p.sized, length-append items ((k, tag) ∷ []));
        held =
            p.held
            ∙ ap (λ (n : ℕ). replicate n (some shared) ++ (some tag ∷ [])) e
            ∙ ap (λ r. r ++ (some tag ∷ [])) (tags_of-all shared items all)
            ∙ sym (tags_of-append items k tag);
      }

  pub keeps_tags :
      (lane : LaneState K) (items : List (K × ℕ)) {shared : Option ℕ}
      → lane.tag_queue ≡ none
      → lane.shared_tag ≡ shared
      → HasTags none shared (room lane.initial lane.max_capacity) items
      → Retags items lane lane
  keeps_tags lane items q h t = record {
    same_queue = refl;
    same_initial = refl;
    same_max = refl;
    same_enqueued = refl;
    same_executed = refl;
    same_dropped = refl;
    tags =
        subst
          (λ (o : Option (Bounded ℕ)).
            HasTags o lane.shared_tag (room lane.initial lane.max_capacity) items)
          (sym q) (subst (λ (o : Option ℕ). SharesTag o items) (sym h) t);
  }

  record_shared-Retags :
      (shared : Option ℕ) (items : List (K × ℕ)) (lane : LaneState K) (k : K) (tag n : ℕ)
      → lane.initial ≤ 2 ^ 31
      → lane.max_capacity ≤ 2 ^ 31
      → n ≡ length items
      → n < room lane.initial lane.max_capacity
      → lane.tag_queue ≡ none
      → lane.shared_tag ≡ shared
      → SharesTag shared items
      → Retags (items ++ ((k, tag) ∷ [])) lane (record_shared shared tag n lane)
  record_shared-Retags none items lane k tag n s m e l q h t =
      subst
        (λ (o : Option (Bounded ℕ)).
          Retags (items ++ ((k, tag) ∷ [])) lane
            (record lane { tag_queue = o; shared_tag = some tag }))
        (sym q)
        (retags (items ++ ((k, tag) ∷ [])) lane none (some tag) (
          last_is_some items (k, tag),
          subst (λ (items : List (K × ℕ)). AllTagged tag (items ++ ((k, tag) ∷ []))) (sym t)
              (refl, tt),
        ))
  record_shared-Retags (some shared) items lane k tag n s m e l q h (some_left, all) =
      either_branch (Retags (items ++ ((k, tag) ∷ [])) lane) (n == 0)
        (λ empty. absurd (ground arith))
        (λ _.
          either_branch (Retags (items ++ ((k, tag) ∷ [])) lane) (shared == tag)
            (λ same.
              let t : HasTags none (some shared) (room lane.initial lane.max_capacity)
                  (items ++ ((k, tag) ∷ [])) =
                (
                  last_is_some items (k, tag),
                  AllTagged-append shared items k tag all (ground arith),
                ) in
              keeps_tags lane (items ++ ((k, tag) ∷ [])) q h t)
            (λ _.
              subst
                (λ (o : Option ℕ). Retags (items ++ ((k, tag) ∷ [])) lane (record lane {
                  tag_queue =
                      some
                        (bounded_push tag
                          (push_times n shared (bounded_make lane.initial lane.max_capacity))).1;
                  shared_tag = o;
                }))
                (sym h)
                (retags (items ++ ((k, tag) ∷ [])) lane
                  (some
                    (bounded_push tag
                      (push_times n shared (bounded_make lane.initial lane.max_capacity))).1)
                  (some shared)
                  (
                    written_out items k tag n shared lane.initial lane.max_capacity s m e l all,
                    last_is_some items (k, tag),
                  ))))

  pub record_in-Retags :
      (tag_queue : Option (Bounded ℕ)) (items : List (K × ℕ)) (lane : LaneState K) (k : K)
      (tag n : ℕ)
      → lane.initial ≤ 2 ^ 31
      → lane.max_capacity ≤ 2 ^ 31
      → n ≡ length items
      → n < room lane.initial lane.max_capacity
      → lane.tag_queue ≡ tag_queue
      → HasTags tag_queue lane.shared_tag (room lane.initial lane.max_capacity) items
      → Retags (items ++ ((k, tag) ∷ [])) lane (record_in tag_queue tag n lane)
  record_in-Retags none items lane k tag n s m e l q t =
      record_shared-Retags lane.shared_tag items lane k tag n s m e l q refl t
  record_in-Retags (some tags) items lane k tag n s m e l q (h, some_left) =
      let p =
        Holds-push tag tags (room lane.initial lane.max_capacity) (length items) (tags_of items) h
          (omega arith) in
      retags (items ++ ((k, tag) ∷ [])) lane (some (bounded_push tag tags).1) lane.shared_tag (
        record {
          ring = p.ring;
          bounded = p.bounded;
          sized = omega (arith, p.sized, length-append items ((k, tag) ∷ []));
          held = p.held ∙ sym (tags_of-append items k tag);
        },
        last_is_some items (k, tag),
      )
