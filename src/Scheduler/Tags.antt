-- ===== src/Scheduler/Tags.antt =====
-- The tags of a lane, which are written out only once two of them differ.
use mathlib.Core.List.{append_assoc, append-nil}
pub mod Served
pub mod Queues
pub mod Shifts
use brass_runtime.Base.{
  ℕ, zero, suc, ◌+◌, ◌-◌, ◌≤◌, ◌<◌, ◌^◌, List, [], ◌∷◌, ◌++◌, length, replicate, Option, none, some,
  ◌≡◌, refl, sym, ap, ◌∙◌, arith,
}
use brass_runtime.Ring.{Bounded, make, bounded_make, bounded_push}
use brass_runtime.Ring.Made.{make-IsValid}
use brass_runtime.Queue.Items.{Holds, push-Holds}
use brass_runtime.Scheduler.{LaneState, push_times}

abbrev pub room : ℕ → ℕ → ℕ
room initial max_capacity = (make {A = ℕ} initial max_capacity).max_cap

module _ {K : Type 0} where
  abbrev pub tasks_of : List (K × ℕ) → List (Option K)
  tasks_of [] = []
  tasks_of ((task, tag) ∷ items) = some task ∷ tasks_of items

  abbrev pub tags_of : List (K × ℕ) → List (Option ℕ)
  tags_of [] = []
  tags_of ((task, tag) ∷ items) = some tag ∷ tags_of items

  abbrev pub AllTagged : ℕ → List (K × ℕ) → Type 0
  AllTagged t [] = Unit
  AllTagged t ((task, tag) ∷ items) = (tag ≡ t) × AllTagged t items

  -- One tag for all the tasks, or a queue of tags.
  abbrev pub SharesTag : Option ℕ → List (K × ℕ) → Type 0
  SharesTag none items = items ≡ []
  SharesTag (some t) items = (0 < length items) × AllTagged t items

  abbrev pub HasTags : Option (Bounded ℕ) → Option ℕ → ℕ → List (K × ℕ) → Type 0
  HasTags none shared most items = SharesTag shared items
  HasTags (some tags) shared most items =
      Holds tags most (length items) (tags_of items) × (0 < length items)

  -- A lane and the tasks with their tags that wait in it; and its counters agree.
  pub record Represents (lane : LaneState K) (items : List (K × ℕ)) : Type 0 where
    pub small : lane.initial ≤ 2 ^ 31
    pub max_small : lane.max_capacity ≤ 2 ^ 31
    pub tasks :
        Holds lane.queue (room lane.initial lane.max_capacity) (length items) (tasks_of items)
    pub tags : HasTags lane.tag_queue lane.shared_tag (room lane.initial lane.max_capacity) items
    pub counted : lane.enqueued_tasks ≡ lane.executed_tasks + lane.dropped_tasks + length items

  tasks_of-append :
      (items : List (K × ℕ)) (k : K) (t : ℕ)
      → tasks_of (items ++ ((k, t) ∷ [])) ≡ tasks_of items ++ (some k ∷ [])
  tasks_of-append [] k t = refl
  tasks_of-append ((k', t') ∷ items) k t = ap (λ r. some k' ∷ r) (tasks_of-append items k t)

  tags_of-append :
      (items : List (K × ℕ)) (k : K) (t : ℕ)
      → tags_of (items ++ ((k, t) ∷ [])) ≡ tags_of items ++ (some t ∷ [])
  tags_of-append [] k t = refl
  tags_of-append ((k', t') ∷ items) k t = ap (λ r. some t' ∷ r) (tags_of-append items k t)

  tags_of-all :
      (t : ℕ) (items : List (K × ℕ))
      → AllTagged t items
      → replicate (length items) (some t) ≡ tags_of items
  tags_of-all t [] h = refl
  tags_of-all t ((k, g) ∷ items) (e, h) =
      ap (λ (x : ℕ). some x ∷ replicate (length items) (some t)) (sym e)
      ∙ ap (λ r. some g ∷ r) (tags_of-all t items h)

  AllTagged-append :
      (t : ℕ) (items : List (K × ℕ)) (k : K) (g : ℕ)
      → AllTagged t items
      → g ≡ t
      → AllTagged t (items ++ ((k, g) ∷ []))
  AllTagged-append t [] k g h e = (e, tt)
  AllTagged-append t ((k', g') ∷ items) k g (f, h) e = (f, AllTagged-append t items k g h e)

Holds-push :
    {A : Type 0} (x : A) (b : Bounded A) (most n : ℕ) (values : List (Option A))
    → Holds b most n values
    → n < most
    → Holds (bounded_push x b).1 most (n + 1) (values ++ (some x ∷ []))
Holds-push x b most n values h l =
    let p = push-Holds x b h.ring (omega (arith, h.bounded, h.sized)) in
    record {
      ring = p.ring;
      bounded = p.bounded ∙ h.bounded;
      sized = omega (arith, p.sized, h.sized);
      held = p.held ∙ ap (λ c. c ++ (some x ∷ [])) h.held;
    }

Holds-times :
    (n t : ℕ) (b : Bounded ℕ) (most m : ℕ) (values : List (Option ℕ))
    → Holds b most m values
    → m + n ≤ most
    → Holds (push_times n t b) most (m + n) (values ++ replicate n (some t))
Holds-times zero t b most m values h l = record {
  ring = h.ring;
  bounded = h.bounded;
  sized = omega (arith, h.sized);
  held = h.held ∙ sym (append-nil values);
}
Holds-times (suc n) t b most m values h l =
    let p =
      Holds-times n t (bounded_push t b).1 most (m + 1) (values ++ (some t ∷ []))
        (Holds-push t b most m values h (omega arith)) (omega arith) in
    record {
      ring = p.ring;
      bounded = p.bounded;
      sized = omega (arith, p.sized);
      held = p.held ∙ append_assoc values (some t ∷ []) (replicate n (some t));
    }

pub made-Holds :
    {A : Type 0} (initial max_capacity : ℕ)
    → initial ≤ 2 ^ 31
    → max_capacity ≤ 2 ^ 31
    → Holds (bounded_make {A = A} initial max_capacity) (room initial max_capacity) 0 []
unfolding bounded_make make
made-Holds {A = A} initial max_capacity h g = record {
  ring = (make-IsValid {A = A} initial max_capacity h g).0;
  bounded = refl;
  sized = refl;
  held = refl;
}
