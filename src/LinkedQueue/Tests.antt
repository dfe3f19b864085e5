-- ===== src/LinkedQueue/Tests.antt =====
-- Witnesses for the theorems on the pointers of a LinkedQueue.
use brass_runtime.Base.{ℕ, ◌≡◌, arith}
use brass_runtime.LinkedQueue.{LinkedQueue, empty}
use brass_runtime.LinkedQueue
use brass_runtime.LinkedQueue.Pointers.{NodeQueue, new_queue, push, shift, remove}
use brass_runtime.LinkedQueue.Models.{Models, push-Models}
use brass_runtime.LinkedQueue.Refines.{new_queue-Models, pointers_refine}

abbrev two_pushed : NodeQueue ℕ
two_pushed = (push 8 (push 7 (new_queue (λ a. 0))).1).1

abbrev two_nodes : LinkedQueue ℕ
two_nodes = (LinkedQueue.push 8 (LinkedQueue.push 7 empty).1).1

two-Models : Models two_pushed two_nodes
two-Models = push-Models 8 _ _ (push-Models 7 _ _ (new_queue-Models (λ a. 0)))

pointers_refine_example :
    ((push 9 two_pushed).0 ≡ (LinkedQueue.push 9 two_nodes).0)
    × Models (push 9 two_pushed).1 (LinkedQueue.push 9 two_nodes).1
    × ((shift two_pushed).0 ≡ (LinkedQueue.shift two_nodes).0)
    × Models (shift two_pushed).1 (LinkedQueue.shift two_nodes).1
    × Models (remove 1 two_pushed) (LinkedQueue.remove 1 two_nodes)
pointers_refine_example = pointers_refine two_pushed two_nodes 9 1 two-Models (omega arith)
