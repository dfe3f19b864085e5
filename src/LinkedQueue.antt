-- ===== src/LinkedQueue.antt =====
-- core/runtime/linkedQueue.ts (`LinkedQueue`).
-- A node is known by a number that is never given out twice, and the queue is the list of its
-- linked nodes from `head` to `tail`; a node is `removed` when it is not among them. The class with
-- its pointers `next` and `prev` is in Pointers; Models and Refines compare the two.
pub mod Unlink
pub mod Pointers
pub mod Models
pub mod Refines
mod Tests
use brass_runtime.Base.{
  ℕ, suc, ◌+◌, Bool, true, false, not, List, [], ◌∷◌, ◌++◌, Option, none, some, length, ◌==◌,
  if◌then◌else◌, is_some,
}

pub record LinkedQueue {ℓ} (V : Type ℓ) : Type ℓ where
  pub nodes : List (ℕ × V)
  pub made : ℕ

module _ {ℓ} {V : Type ℓ} where
  abbrev pub empty : LinkedQueue V
  empty = record { nodes = []; made = 0 }

  abbrev pub len : LinkedQueue V → ℕ
  len q = length q.nodes

  -- The node that `push` returns is the first component.
  abbrev pub push : V → LinkedQueue V → ℕ × LinkedQueue V
  push value q = (q.made, record { nodes = q.nodes ++ ((q.made, value) ∷ []); made = suc q.made })

  abbrev pub shift_nodes : List (ℕ × V) → ℕ → Option V × LinkedQueue V
  shift_nodes [] made = (none, record { nodes = []; made = made })
  shift_nodes ((node, value) ∷ rest) made = (some value, record { nodes = rest; made = made })

  abbrev pub shift : LinkedQueue V → Option V × LinkedQueue V
  shift q = shift_nodes q.nodes q.made

  -- The value of a node that is still linked.
  abbrev pub linked : ℕ → List (ℕ × V) → Option V
  linked node [] = none
  linked node ((other, value) ∷ rest) =
      let later = linked node rest in if node == other then some value else later

  abbrev pub is_removed : ℕ → LinkedQueue V → Bool
  is_removed node q = not (is_some (linked node q.nodes))

  abbrev pub unlink : ℕ → List (ℕ × V) → List (ℕ × V)
  unlink node [] = []
  unlink node ((other, value) ∷ rest) =
      let later = unlink node rest in if node == other then rest else (other, value) ∷ later

  abbrev pub remove : ℕ → LinkedQueue V → LinkedQueue V
  remove node q = record q { nodes = unlink node q.nodes }
