-- ===== src/Lib.antt =====
-- The core of brass-runtime: an interpreter of effects on fibers, and the queues, semaphores,
-- circuit breakers, schedules, caches and timers that its clients use; the scheduler that runs
-- its tasks; and streams with the fusion of their pipelines. Paths are those of the repository.
--
-- The parts and their files:
-- * Effect (src/core/types/effect.ts): `Cause` and `Exit` with all their queries. Errors, thrown
--   values and defects are of one type, because the code casts between them.
-- * Async (src/core/types/asyncEffect.ts): effects as data, one constructor for each tag, and
--   the effects derived from them. A callback of the program is a function of the world (the
--   JavaScript heap and the FiberRefs of the fiber), and returns or throws.
-- * Fiber (src/core/runtime/fiber.ts, `RuntimeFiber`): Fiber/State has the fields of the class,
--   its finalizers, `notify` and the interruptibility; Fiber/Unwind `onSuccess` and `onCause`;
--   Fiber/Machine the switch of `step`, the trampoline for nested FlatMaps, `schedule`,
--   `boundStep`, `interrupt` and the callback `_asyncCb`. Fiber/Eval is an independent meaning
--   of effects and stacks by recursion on the effect; Fiber/Rounds and its children,
--   Fiber/Refines and Fiber/Signals compare the machine with it. Fiber/Calm is the class of
--   effects for which the comparison holds: the trampoline and the switch treat a thunk that
--   throws in different ways (Fiber/Throws), and a failure handler that returns a FlatMap
--   directly over such a thunk is run by either, as the trampoline was or was not entered.
--   Fiber/Ends is about the end of a step.
-- * Ring (src/core/runtime/ringBuffer.ts and the TypeScript engine of boundedRingBuffer.ts): the
--   array with masked indices; Ring/Smear is about the sizes that the constructor rounds up;
--   Ring/Valid says when the fields fit together and what the buffer holds.
-- * Links has doubly linked lists as pointers, for the two files that keep one: Links/Unlink and
--   Links/Ends say what becomes of the pointers when a node is taken out or put at an end.
-- * LinkedQueue (src/core/runtime/linkedQueue.ts): nodes known by identity, in their order, as
--   the queue and the semaphore use them; LinkedQueue/Pointers has the nodes with their
--   pointers, and LinkedQueue/Models and LinkedQueue/Refines compare the two.
-- * LruCache (src/http/lifecycle/lruCache.ts): the cache with its pointers and its map;
--   LruCache/Spec is a list of entries in the order of use, LruCache/Holds and
--   LruCache/Represents relate the two, LruCache/Runs is about sequences of commands.
-- * PriorityQueue (src/http/lifecycle/priorityQueue.ts): the binary heap in its array;
--   PriorityQueue/Up and PriorityQueue/Down are about its two loops, PriorityQueue/Counts about
--   the entries in it, PriorityQueue/Served about what is taken out.
-- * Queue (src/core/stream/queue.ts): Queue/Offer and Queue/Take have the operations, written
--   over the ring buffer and two linked queues, with every counter; Queue/Kept the invariant,
--   Queue/Order the order of values, Queue/Full what an offer does when it cannot be buffered,
--   Queue/Runs sequences of operations.
-- * TimerWheel (src/http/timerWheel.ts): the slots, the list of short timeouts, their counters
--   and the timers that are set; TimerWheel/Expiry is about the loop of a tick over a slot, in
--   which a callback may throw, TimerWheel/Ticks and TimerWheel/Turn about when an entry has its
--   turn, TimerWheel/Numbers about the numbers by which entries are known.
-- * Semaphore (src/core/runtime/semaphore.ts): acquisition, its canceler, release,
--   `releaseOnce`. Semaphore/Line is the reference, one line of acquisitions with a number of
--   places at its head; Semaphore/Served compares the two.
-- * Breaker (src/core/runtime/circuitBreaker.ts): the three states and the handlers of an
--   effect.
-- * Schedule (src/core/runtime/schedule.ts): schedules as records of functions, the combinators,
--   the driver and its runs.
-- * Scheduler (src/core/runtime/scheduler.ts, the TypeScript engine with fair lanes): Scheduler
--   has the lanes and their tags, Scheduler/Schedules `schedule`, Scheduler/Flushes the
--   round-robin shift and the flush. Scheduler/Tags relates a lane to a queue of tasks with
--   their tags, Scheduler/Schedules/Sound says when lanes, counters and requests agree,
--   Scheduler/Flushes/Life is about a scheduler from its making on, Scheduler/Flushes/Traces
--   about the tasks that a flush runs, Scheduler/Flushes/Accounts about their log.
-- * Streams (src/core/stream/stream.ts, and the operators of pipeline.ts): streams as nodes,
--   `uncons`, `collectStream`, `mapStream` and `zip`; Streams/Pipes has mapP, filterP,
--   filterMapP, takeP and dropP. Streams/Runs is what a stream gives in the end.
-- * Fusion (src/core/stream/fusion.ts, and `via` and `andThen` of pipeline.ts): the fused step
--   and its loop over an array; Fusion/Applied has `applyFused`, Fusion/Pipelines the pipelines
--   that carry their steps, Fusion/Pipelines/Texts their serialized form. Fusion/Runs relates
--   the fused step to the operators that run one after the other.
-- * Base has the names of the libraries that the files share, Boolean tests, lists, and masks.
--
-- How they interact: a queue holds its values in a bounded ring buffer and its waiters in linked
-- queues, and a semaphore its waiters in a linked queue; a lane of the scheduler holds its
-- tasks, and its tags once two of them differ, in bounded ring buffers. A task of the scheduler
-- may schedule others when it runs, which a parameter says. A fused pipeline runs over the
-- streams, whose effects are read as their outcomes. Callbacks of waiters are those of fibers;
-- in the models of the queue and of the semaphore a call of one is an entry of a log. With a
-- success such a callback schedules a later task; with a failure, as when a queue is shut down,
-- the code also runs the handlers of the fiber at once (`onCause` in `_asyncCb`), and what they
-- do to the queue in that moment is not modelled. The callbacks of the timer wheel and `onEvict`
-- of the cache are recorded in the same way. One of the wheel may throw, which ends the tick;
-- one that schedules or cancels a timeout while the wheel ticks is outside the model, and the
-- code then does not keep its slots and timers in order. On the path that pulls, `applyFused`
-- makes the counters of take and drop once, when a pipeline is applied; the model is of one run
-- of the applied stream, and a second run, which would go on with the counters of the first, is
-- not modelled.
--
-- Bounds and fuel: the budget of `step` is that of the source (16384 there); the theorems hold
-- for any. The loops of the priority queue are given the length of the array or the index as
-- fuel, which they use up at most, and a loop that pulls a stream the number of its elements; a
-- flush of the scheduler is bounded by its budget, which is any number. Numbers are natural
-- numbers; the indices of the ring buffer are below 2^31, where the bit operations of JavaScript
-- are those of the natural numbers. Times are whole milliseconds, read from a clock that is a
-- parameter.
--
-- Not modelled: the runtime that forks fibers (fork and the answer of the scheduler are
-- parameters of the fiber), scopes, layers and supervisors, streams that race or open scopes,
-- hubs, the rest of the HTTP packages, observability, the agent, and the WebAssembly engines,
-- which are compiled code. Of the modelled files: printing of causes, promises, `withPermit`,
-- jitter (random fractions), names and observers of schedules, retry and repeat; the reading of
-- a lane from the text of a tag, which is a parameter of the scheduler, and its mode with a
-- single lane; messages of the verbose mode of the fusion.
pub mod Base
pub mod Effect
pub mod Async
pub mod Fiber
pub mod Fusion
pub mod Ring
pub mod Links
pub mod LinkedQueue
pub mod LruCache
pub mod Queue
pub mod PriorityQueue
pub mod Breaker
pub mod Schedule
pub mod Streams
pub mod Scheduler
pub mod Semaphore
pub mod TimerWheel
