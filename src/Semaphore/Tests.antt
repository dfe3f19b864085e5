-- ===== src/Semaphore/Tests.antt =====
-- Witnesses for the theorems on semaphores.
use brass_runtime.Base.{List, [], ◌∷◌}
use brass_runtime.Semaphore.{make_semaphore}
use brass_runtime.Semaphore.Permits.{
  Action, acquiring, cancelling, releasing, permitting, releasing_once, act_all,
}
use brass_runtime.Semaphore.Line.{start, move_all, Shows}
use brass_runtime.Semaphore.Served.{act_all_refines}

-- Three acquisitions of two permits; the waiter gets the permit that is released.
abbrev three_users : List Action
three_users =
    acquiring 1
    ∷ acquiring 2
    ∷ acquiring 3
    ∷ releasing
    ∷ permitting
    ∷ releasing_once 0
    ∷ cancelling 0
    ∷ []

act_all_refines_example :
    Shows (move_all three_users (start 2)) (act_all three_users (make_semaphore 2))
act_all_refines_example = act_all_refines 2 three_users
