-- ===== src/Fiber/Tests.antt =====
-- Witnesses for the theorems on fibers.
use brass_runtime.Base.{ℕ, ◌+◌, true, false, [], ◌∷◌, none, some, ◌≡◌, refl}
use brass_runtime.Effect.{success, failure, interrupt, die}
use brass_runtime.Async.{World, Call, threw, Body, returns, succeed, fail, sync, flat_map, fold}
use brass_runtime.Fiber.State.{
  RunState, done, success_cont, canceler, Fiber, Host, detach_at, should_interrupt_now,
}
use brass_runtime.Fiber.Machine.{accepted, step, async_cb}
use brass_runtime.Fiber.Eval.{meaning, conclude, unwind, ended, context}
use brass_runtime.Fiber.Resumes.{Scheduled}
use brass_runtime.Fiber.Calm.{Calm, IsCalm, CalmStack}
use brass_runtime.Fiber.Rounds.{Lives, Reaches}
use brass_runtime.Fiber.Refines.{StepRight, IsRunning, step_refines}
use brass_runtime.Fiber.Signals.{step-interrupted, async_cb-resumes}
use brass_runtime.Fiber.Ends.{IsOver}
use brass_runtime.Fiber.Ends.Steps.{step_ends}
use brass_runtime.Fiber.Throws.{with_current, thrown_below}

-- A world of one number; children are not run.
abbrev host : Host ℕ ℕ ℕ
host = record { fork = λ e scope w. (0, w); dropped = 99 }

abbrev world : World ℕ ℕ
world = record { heap = 0; refs = [] }

abbrev handler : ℕ → World ℕ ℕ → Body ℕ ℕ ℕ
handler e w = returns (succeed (e + 1)) w

abbrev successor : ℕ → World ℕ ℕ → Body ℕ ℕ ℕ
successor v w = returns (succeed (v + 1)) w

abbrev throwing : World ℕ ℕ → Call ℕ ℕ ℕ
throwing w = threw 7 w

-- A failure that a handler turns into a value.
abbrev recovering : Fiber ℕ ℕ ℕ
recovering = record {
  current = fold (flat_map (succeed 3) (λ v w. returns (fail v) w)) handler successor;
  stack = success_cont successor ∷ [];
  world = world;
  depth = 0;
  interrupted = false;
  finishing = false;
  closing = none;
  result = none;
  finalizers = [];
  drained = false;
  joiners = [];
  sync_resolved = false;
  detach = none;
  run_state = RunState.running;
  events = [];
}

-- It waits for the callback of an operation, whose canceler is its one finalizer.
abbrev waiting : Fiber ℕ ℕ ℕ
waiting = record recovering {
  finalizers = canceler (λ w. w) ∷ [];
  detach = some 0;
  run_state = RunState.suspended;
}

abbrev interrupted_fiber : Fiber ℕ ℕ ℕ
interrupted_fiber = record recovering { interrupted = true }

recovering-Lives : Lives host false [] [] recovering
recovering-Lives = record {
  no_result = refl;
  no_closing = refl;
  not_finishing = refl;
  not_drained = refl;
  same_interrupted = refl;
  same_finalizers = refl;
  same_joiners = refl;
}

waiting-IsRunning : IsRunning host waiting
waiting-IsRunning = record {
  no_result = refl;
  no_closing = refl;
  not_finishing = refl;
  not_drained = refl;
  same_interrupted = refl;
  same_finalizers = refl;
  same_joiners = refl;
}

interrupted-Lives : Lives host true [] [] interrupted_fiber
interrupted-Lives = record {
  no_result = refl;
  no_closing = refl;
  not_finishing = refl;
  not_drained = refl;
  same_interrupted = refl;
  same_finalizers = refl;
  same_joiners = refl;
}

recovering-IsCalm : IsCalm recovering
unfolding Calm
recovering-IsCalm = ((((tt, λ v w. tt), (λ e w. (tt, tt)), λ v w. tt)), ((λ v w. tt), tt))

waiting-CalmStack : CalmStack waiting.stack
unfolding Calm
waiting-CalmStack = ((λ v w. tt), tt)

step_refines_example : StepRight host false [] [] (meaning host recovering) (step host 9 recovering)
unfolding should_interrupt_now
step_refines_example = step_refines host 9 recovering recovering-Lives recovering-IsCalm refl

step-interrupted_example :
    ((step host 9 interrupted_fiber).0 ≡ done)
    × ((step host 9 interrupted_fiber).1.result ≡ some (failure interrupt))
unfolding should_interrupt_now
step-interrupted_example =
    step-interrupted host true [] [] 9 interrupted_fiber interrupted-Lives refl

async_cb-resumes_example :
    Reaches host false
      (detach_at (some 0) waiting.finalizers)
      []
      (conclude false (unwind host false waiting.stack (ended (success 4) (context waiting))))
      (async_cb host accepted (success 4) waiting)
    × Scheduled waiting.run_state (async_cb host accepted (success 4) waiting)
async_cb-resumes_example =
    async_cb-resumes host (success 4) waiting waiting-IsRunning waiting-CalmStack refl

thrown_below_example :
    (step host 6 (
      with_current host false [] []
        (fold (flat_map (sync throwing) successor) handler successor)
        recovering)).1.result
    ≡ some (failure (die 7))
unfolding should_interrupt_now
thrown_below_example =
    thrown_below host false [] [] 3 recovering throwing successor handler successor 7 world
      recovering-Lives refl refl

step_ends_example : (budget : ℕ) × IsOver host (step host budget recovering).0
step_ends_example = step_ends host recovering refl refl
