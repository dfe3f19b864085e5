-- ===== src/Fiber.antt =====
-- core/runtime/fiber.ts: `RuntimeFiber`, the machine that interprets an effect.
-- The state of a fiber is a record, and a method returns the new fiber. What the fiber only calls
-- is a parameter (`Host`): `Runtime.fork`, and the error of a dropped task. The answer of the
-- scheduler is an argument of `schedule`. Callbacks of the program act on the world and do not
-- call back into the fiber that runs them. A callback that throws where the code swallows the
-- exception is the world that it leaves behind.
pub mod State
pub mod Unwind
pub mod Machine
pub mod Eval
pub mod Calm
pub mod Rounds
pub mod Refines
pub mod Ends
pub mod Resumes
pub mod Signals
pub mod Throws
pub mod Maps
mod Tests
