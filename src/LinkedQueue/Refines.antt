-- ===== src/LinkedQueue/Refines.antt =====
-- The operations of a LinkedQueue on its pointers and on the list of its nodes.
use brass_runtime.Base.{
  ℕ, ◌<◌, true, false, List, [], ◌∷◌, Option, none, some, if◌then◌else◌, ◌==◌, ◌≡◌, arith, refl,
  inl, inr, sym, ap, subst, Option-cases, either_branch,
}
use brass_runtime.Links.{first}
use brass_runtime.LinkedQueue.{LinkedQueue, empty, linked, is_removed}
use brass_runtime.LinkedQueue
use brass_runtime.LinkedQueue.Unlink.{unlink-removed}
use brass_runtime.LinkedQueue.Pointers.{
  new_queue, NodeQueue, unlink_node, push, shift, remove, shift_at,
}
use brass_runtime.LinkedQueue.Models.{
  Models, addresses, has-addresses, unlink_node-Models, push-Models,
}

module _ {V : Type 0} where
  abbrev ShiftsAlike : Option V × NodeQueue V → Option V × LinkedQueue V → Type 0
  ShiftsAlike (o, q) (p, s) = (o ≡ p) × Models q s

  shift_at-Models :
      (nodes : List (ℕ × V)) (made : ℕ) (q : NodeQueue V)
      → Models q (record { nodes = nodes; made = made })
      → ShiftsAlike (shift_at (first (addresses nodes)) q) (LinkedQueue.shift_nodes nodes made)
  unfolding shift_at
  shift_at-Models [] made q m = (refl, m)
  shift_at-Models ((a, v) ∷ nodes) made q m =
      let itself : (a == a) ≡ true = ground arith in
      let taken =
        unlink_node-Models a v q (record { nodes = (a, v) ∷ nodes; made = made }) (ground arith)
          m in
      (
        ap some m.values.0,
        subst
            (λ b. Models (unlink_node a q) (record {
              nodes = if b then nodes else (a, v) ∷ LinkedQueue.unlink a nodes;
              made = made;
            }))
            itself taken,
      )

  shift-Models :
      (q : NodeQueue V) (s : LinkedQueue V)
      → Models q s
      → ShiftsAlike (shift q) (LinkedQueue.shift s)
  unfolding shift
  shift-Models q s m =
      subst (λ o. ShiftsAlike (shift_at o q) (LinkedQueue.shift s)) (sym m.chain.from_head)
        (shift_at-Models s.nodes s.made q m)

  removed_before :
      (a : ℕ) (q : NodeQueue V) (s : LinkedQueue V)
      → a < s.made
      → Models q s
      → q.removed a ≡ true
      → linked a s.nodes ≡ none
  removed_before a q s l m t = elim (Option-cases (linked a s.nodes)) [
    | inl e ↦ e
    | inr (v, e) ↦ absurd (ground (arith, m.flags a l, has-addresses a s.nodes, e))
  ]

  linked_still :
      (a : ℕ) (q : NodeQueue V) (s : LinkedQueue V)
      → a < s.made
      → Models q s
      → q.removed a ≡ false
      → (v : V) × (linked a s.nodes ≡ some v)
  linked_still a q s l m t = elim (Option-cases (linked a s.nodes)) [
    | inl e ↦ absurd (ground (arith, m.flags a l, has-addresses a s.nodes, e))
    | inr found ↦ found
  ]

  -- Only for a node that was made, since the code can have no other.
  remove-Models :
      (a : ℕ) (q : NodeQueue V) (s : LinkedQueue V)
      → a < s.made
      → Models q s
      → Models (remove a q) (LinkedQueue.remove a s)
  unfolding remove
  remove-Models a q s l m =
      either_branch (λ r. Models r (LinkedQueue.remove a s)) (q.removed a)
        (λ t.
          let same = unlink-removed a s.nodes (removed_before a q s l m t) in
          subst (λ nodes. Models q (record s { nodes = nodes })) (sym same) m)
        (λ n. let (v, e) = linked_still a q s l m n in unlink_node-Models a v q s e m)

  pub new_queue-Models : (memory : ℕ → V) → Models (new_queue memory) empty
  new_queue-Models memory = record {
    chain = record {
      from_head = refl;
      from_tail = refl;
      distinct = tt;
      forwards = tt;
      backwards = tt;
    };
    values = tt;
    flags = λ a l. refl;
    counted = refl;
    same_made = refl;
    below = tt;
  }

  -- Pointers that stand for a queue still do after a push, a shift and a removal, whichever node
  -- that was made is removed; push returns the same node and shift the same value.
  pub pointers_refine :
      (q : NodeQueue V) (s : LinkedQueue V) (value : V) (node : ℕ)
      → Models q s
      → node < s.made
      → ((push value q).0 ≡ (LinkedQueue.push value s).0)
        × Models (push value q).1 (LinkedQueue.push value s).1
        × ((shift q).0 ≡ (LinkedQueue.shift s).0)
        × Models (shift q).1 (LinkedQueue.shift s).1
        × Models (remove node q) (LinkedQueue.remove node s)
  unfolding push
  pointers_refine q s value node m l =
      let (o, t) = shift-Models q s m in
      (m.same_made, push-Models value q s m, o, t, remove-Models node q s l m)
