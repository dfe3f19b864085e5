-- ===== src/Queue/Tests.antt =====
-- Witnesses for the theorems on queues.
use brass_runtime.Base.{ℕ, ◌*◌, false, List, [], ◌∷◌, ◌++◌, some, ◌≡◌, ◌≢◌, refl, arith, inl, inr}
use brass_runtime.Queue.{sliding, make_queue, Queue, backpressure}
use brass_runtime.Queue.Offer.{offer}
use brass_runtime.Queue.Take.{take}
use brass_runtime.Queue.Valid.{IsValid}
use brass_runtime.Queue.Order.{TakesFirst, take_fifo, pending, offer_fifo}
use brass_runtime.Queue.Full.{Overflows, offer_full}
use brass_runtime.Queue.Runs.{
  Operation, offering, taking, offering_all, taking_up_to, cancelling_offer, cancelling_take,
  closing, after, new-IsValid,
}

abbrev ticks : ℕ → ℕ
ticks n = n * 10

-- The buffer holds 5 and 7, and the offer of 9 waits.
abbrev busy_queue : Queue ℕ
busy_queue = record {
  strategy = backpressure;
  capacity = 2;
  items = record {
    inner = record { buf = some 7 ∷ some 5 ∷ []; head = 1; tail = 1; size = 2; max_cap = 2 };
    pushes = 2;
    shifts = 0;
    clears = 0;
    dropped_pushes = 0;
  };
  closed = false;
  offered = 3;
  accepted = 2;
  dropped = 0;
  slid = 0;
  discarded_on_shutdown = 0;
  take_calls = 0;
  taken = 0;
  max_size = 2;
  max_waiting_offers = 1;
  max_waiting_takers = 0;
  offer_wait_count = 0;
  offer_wait_ms_total = 0;
  offer_wait_ms_max = 0;
  take_wait_count = 0;
  take_wait_ms_total = 0;
  take_wait_ms_max = 0;
  cancelled_offers = 0;
  cancelled_takes = 0;
  offer_waiters = record { nodes = (0, record { a = 9; started_at = 0; cb = 3 }) ∷ []; made = 1 };
  takers = record { nodes = []; made = 0 };
  readings = 1;
  log = [];
}

busy_queue-IsValid : IsValid busy_queue
busy_queue-IsValid = record {
  ring = record {
    order = 1;
    max_order = 1;
    width = refl;
    max_width = refl;
    within = omega arith;
    head_in = omega arith;
    fits = omega arith;
    tail_at = refl;
  };
  room = omega arith;
  bound = omega arith;
  slides = inr (omega arith);
  takers_wait = inl refl;
  offers_wait = inr refl;
  after_close = inl refl;
  offers_counted = refl;
  values_counted = refl;
}

abbrev every_operation : List (Operation ℕ)
every_operation =
    offering 4 8
    ∷ taking 5
    ∷ offering_all (1 ∷ 2 ∷ [])
    ∷ cancelling_offer 0
    ∷ taking_up_to 3
    ∷ taking 6
    ∷ cancelling_take 0
    ∷ closing
    ∷ offering 7 3
    ∷ []

new-IsValid_example : IsValid (after ticks every_operation (make_queue 3 sliding))
new-IsValid_example = new-IsValid ticks 3 sliding every_operation (omega arith) (inr (omega arith))

filled : pending busy_queue ≢ []
filled e = cc

take_fifo_example : TakesFirst 4 busy_queue (take ticks 4 busy_queue)
take_fifo_example = take_fifo ticks 4 busy_queue busy_queue-IsValid filled

offer_fifo_example : pending (offer ticks 4 8 busy_queue) ≡ pending busy_queue ++ (some 8 ∷ [])
offer_fifo_example = offer_fifo ticks 4 8 busy_queue busy_queue-IsValid refl refl refl

offer_full_example : Overflows backpressure 4 8 busy_queue (offer ticks 4 8 busy_queue)
offer_full_example = offer_full ticks 4 8 busy_queue busy_queue-IsValid refl refl (omega arith)
