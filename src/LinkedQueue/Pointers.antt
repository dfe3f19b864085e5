-- ===== src/LinkedQueue/Pointers.antt =====
-- core/runtime/linkedQueue.ts with its pointers: `LinkedQueue<T>` and `Node<T>`.
-- A node is known by its address; an address is given out once. The fields of the nodes are
-- functions of the address, and what they hold at addresses not given out does not matter.
use brass_runtime.Base.{ℕ, suc, ◌+◌, ◌-◌, Bool, true, false, Option, none, some, if◌then◌else◌}
use brass_runtime.Links.{Links, no_links, write, unlink, add_to_tail}

pub record NodeQueue {ℓ} (V : Type ℓ) : Type ℓ where
  pub links : Links
  pub value : ℕ → V
  pub removed : ℕ → Bool
  pub len : ℕ
  pub made : ℕ

module _ {ℓ} {V : Type ℓ} where
  -- A new queue; `memory` is what the addresses hold before.
  abbrev pub new_queue : (ℕ → V) → NodeQueue V
  new_queue memory = record {
    links = no_links;
    value = memory;
    removed = λ a. true;
    len = 0;
    made = 0;
  }

  -- The private `unlink`, without what it returns to its callers.
  unfoldable pub unlink_node : ℕ → NodeQueue V → NodeQueue V
  unfolding unlink
  unlink_node node q = record q {
    links = unlink node q.links;
    removed = write q.removed node true;
    len = q.len - 1;
  }

  unfoldable pub push : V → NodeQueue V → ℕ × NodeQueue V
  unfolding add_to_tail
  push value q = (
    q.made,
    record {
      links = add_to_tail q.made q.links;
      value = write q.value q.made value;
      removed = write q.removed q.made false;
      len = q.len + 1;
      made = suc q.made;
    },
  )

  -- What `shift` does with the head that it reads.
  unfoldable pub shift_at : Option ℕ → NodeQueue V → Option V × NodeQueue V
  unfolding unlink_node
  shift_at none q = (none, q)
  shift_at (some h) q = (some (q.value h), unlink_node h q)

  unfoldable pub shift : NodeQueue V → Option V × NodeQueue V
  unfolding shift_at
  shift q = shift_at q.links.head q

  unfoldable pub remove : ℕ → NodeQueue V → NodeQueue V
  unfolding unlink_node
  remove node q = if q.removed node then q else unlink_node node q
