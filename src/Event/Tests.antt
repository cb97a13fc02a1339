-- ===== src/Event/Tests.antt =====
-- Runs of the queues on small inputs.
use mxrc.Common.{
  ℕ, ◌*◌, ◌/◌, ◌≤◌, ◌≡◌, refl, String, Option, none, some, List, [], ◌∷◌, ◌++◌, arith,
}
use mxrc.Event.PrioritizedEvent.{
  PrioritizedEvent, EventPriority, critical, high, normal, low, is_expired, is_less,
}
use mxrc.Event.PriorityQueue.{new, push, pop}
use mxrc.Event.PriorityQueue.Bounds.{at_least}
use mxrc.Event.PriorityQueue.Order.{Leaves}
use mxrc.Event.PriorityQueue.Runs.{Call, pushes, pops, run, run-Holds, run-Leaves}
use mxrc.Event.LockFreeQueue
use mxrc.Event.LockFreeQueue.{SpscLockFreeQueue}
use mxrc.Event.LockFreeQueue.Ring.{segment}
use mxrc.Event.LockFreeQueue.Fifo.{Move, producer_moves, consumer_moves, step, run-segment}
use mxrc.Event.LockFreeQueue.Fifo
use mxrc.Event.PriorityQueue.Coalescing.{IsPair, pop-newer}

abbrev event : EventPriority → ℕ → Option String → PrioritizedEvent ℕ
event p n key = record {
  type = "sensor";
  priority = p;
  payload = n;
  timestamp_ns = n;
  sequence_num = n;
  ttl = some 5;
  coalescing_key = key;
}

abbrev clock : PrioritizedEvent ℕ → ℕ
clock e = 1000

abbrev calls : List (Call ℕ)
calls = pushes (event low 1 none) ∷ pushes (event critical 2 none) ∷ pops clock ∷ []

run-Holds_example : at_least 3 (run (new 10) calls).queue ≤ 10 * 8 / 10
run-Holds_example = (run-Holds 10 calls (omega arith)).0

run-Leaves_example : let r = pop clock (run (new 10) calls) in Leaves r.0 r.1.queue
run-Leaves_example = run-Leaves 10 calls clock

abbrev first : PrioritizedEvent ℕ
first = event normal 1 (some "battery")

abbrev second : PrioritizedEvent ℕ
second = event normal 2 (some "battery")

abbrev urgent : PrioritizedEvent ℕ
urgent = event high 2 (some "battery")

pair : IsPair "battery" first second clock 10
unfolding is_expired
pair = record {
  first_key = refl;
  second_key = refl;
  distinct = refl;
  first_fresh = refl;
  second_fresh = refl;
  room = omega arith;
}

urgent-IsPair : IsPair "battery" first urgent clock 10
unfolding is_expired
urgent-IsPair = record {
  first_key = refl;
  second_key = refl;
  distinct = refl;
  first_fresh = refl;
  second_fresh = refl;
  room = omega arith;
}

pop-newer_example : (pop clock (push second (push first (new 10)).0).0).0 ≡ some second
unfolding is_less
pop-newer_example = (pop-newer "battery" first second 10 clock pair refl).0

-- Two pushes and a pop, with the pop between the steps of the second push.
abbrev interleaved : List (Move ℕ)
interleaved =
    producer_moves 7
    ∷ producer_moves 7
    ∷ producer_moves 7
    ∷ producer_moves 8
    ∷ consumer_moves
    ∷ producer_moves 8
    ∷ consumer_moves
    ∷ producer_moves 8
    ∷ consumer_moves
    ∷ []

abbrev ring : SpscLockFreeQueue ℕ
ring = Fifo.run (LockFreeQueue.new 3 0) interleaved

run-segment_example :
    ring.pushed ≡ ring.popped ++ segment 3 ring.buffer ring.read_pos (LockFreeQueue.size ring)
run-segment_example = (run-segment 3 0 interleaved (omega arith)).0

ring_popped : ring.popped ≡ 7 ∷ []
unfolding Fifo.run step LockFreeQueue.new LockFreeQueue.produce LockFreeQueue.consume
ring_popped = refl
