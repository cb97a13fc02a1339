-- ===== src/Event/PriorityQueue/Runs.antt =====
-- Every sequence of pushes and pops on a queue.
use mxrc.Common.{ℕ, ◌+◌, ◌*◌, ◌/◌, ◌^◌, ◌<◌, ◌≤◌, ◌≡◌, refl, subst, List, [], ◌∷◌, arith, length}
use mxrc.Event.PrioritizedEvent.{PrioritizedEvent}
use mxrc.Event.PriorityQueue.{PriorityQueue, new, no_metrics, push, pop}
use mxrc.Event.PriorityQueue.Bounds.{Holds, at_least, total, push-Holds, pop_from-Holds}
use mxrc.Event.PriorityQueue.Order.{IsSorted, Leaves, push-IsSorted, pop_from-Leaves}

-- A pop reads the clock for each event that it looks at.
pub data Call (P : Type 0) : Type 0 where
  pushes : PrioritizedEvent P → Call P
  pops : (PrioritizedEvent P → ℕ) → Call P

module _ {P : Type 0} where
  unfoldable pub step : PriorityQueue P → Call P → PriorityQueue P
  step q (pushes e) = (push e q).0
  step q (pops now) = (pop now q).1

  unfoldable pub run : PriorityQueue P → List (Call P) → PriorityQueue P
  run q [] = q
  run q (c ∷ cs) = run (step q c) cs

  later : (full n : ℕ) (q : PriorityQueue P) → Holds full n q → Holds full (n + 1) q
  later full n q h = record {
    sized = h.sized;
    whole = h.whole;
    eighty = h.eighty;
    ninety = h.ninety;
    low_events = h.low_events;
    normal_events = h.normal_events;
    high_events = h.high_events;
    balance = h.balance;
    few = omega (arith, h.few);
  }

  step-Holds :
      (full n : ℕ) (q : PriorityQueue P) (c : Call P)
      → n + 1 < 2 ^ 64
      → Holds full n q
      → Holds full (n + 1) (step q c)
  unfolding step pop
  step-Holds full n q (pushes e) small h = push-Holds full n e q small h
  step-Holds full n q (pops now) small h =
      later full n _ (pop_from-Holds full n q.queue now q (omega (arith, small)) refl h)

  steps-Holds :
      (full n : ℕ) (q : PriorityQueue P) (cs : List (Call P))
      → n + length cs < 2 ^ 64
      → Holds full n q
      → Holds full (n + length cs) (run q cs)
  unfolding run
  steps-Holds full n q [] small h = subst (λ k. Holds full k q) (omega arith) h
  steps-Holds full n q (c ∷ cs) small h =
      subst (λ k. Holds full k (run (step q c) cs)) (omega arith)
        (steps-Holds full (n + 1) (step q c) cs (omega (arith, small))
          (step-Holds full n q c (omega (arith, small)) h))

  steps-IsSorted :
      (q : PriorityQueue P) (cs : List (Call P)) → IsSorted q.queue → IsSorted (run q cs).queue
  unfolding run step pop
  steps-IsSorted q [] s = s
  steps-IsSorted q (pushes e ∷ cs) s = steps-IsSorted (push e q).0 cs (push-IsSorted e q s)
  steps-IsSorted q (pops now ∷ cs) s =
      steps-IsSorted (pop now q).1 cs (pop_from-Leaves q.queue now q refl s).1

  new-Holds : (full : ℕ) → Holds full 0 (new {P = P} full)
  unfolding new no_metrics
  new-Holds full = record {
    sized = refl;
    whole = refl;
    eighty = refl;
    ninety = refl;
    low_events = omega arith;
    normal_events = omega arith;
    high_events = omega arith;
    balance = omega arith;
    few = omega arith;
  }

  -- After fewer than 2^64 pushes and pops on a new queue of any capacity, at most 80 % of the capacity
  -- are LOW events, at most 90 % are LOW or NORMAL, and at most all of it is not CRITICAL. The size is
  -- the number of waiting events, and with the events popped and expired these are at most the number
  -- accepted.
  pub run-Holds :
      (capacity : ℕ) (cs : List (Call P))
      → length cs < 2 ^ 64
      → let q = run (new capacity) cs in
        (at_least 3 q.queue ≤ capacity * 8 / 10)
        × (at_least 2 q.queue ≤ capacity * 9 / 10)
        × (at_least 1 q.queue ≤ capacity)
        × (q.size ≡ length q.queue)
        × (q.metrics.events_popped + q.metrics.events_expired + length q.queue
            ≤ total q.metrics.pushed)
  run-Holds capacity cs small =
      let h =
        steps-Holds capacity 0 (new capacity) cs (omega (arith, small)) (new-Holds capacity) in
      (
        omega (arith, h.low_events, h.eighty),
        omega (arith, h.normal_events, h.ninety),
        omega (arith, h.high_events, h.whole),
        h.sized,
        h.balance,
      )

  -- Whatever was pushed and popped on a new queue: of an event that pop answers and any event that it
  -- leaves in the queue, the one answered has the smaller priority number (CRITICAL is 0), or the same
  -- and the earlier time, or the same of both and a sequence number that is not larger; and pop answers
  -- with nothing only if it leaves nothing.
  pub run-Leaves :
      (capacity : ℕ) (cs : List (Call P)) (now : PrioritizedEvent P → ℕ)
      → let r = pop now (run (new capacity) cs) in Leaves r.0 r.1.queue
  unfolding pop new
  run-Leaves capacity cs now =
      let q = run (new capacity) cs in
      (pop_from-Leaves q.queue now q refl (steps-IsSorted (new capacity) cs tt)).0
