-- ===== src/Event/PriorityQueue/Bounds.antt =====
-- The drop policy: how many events of each priority can wait, and what the metrics count.
use mxrc.Common.{
  String, ℕ, ◌+◌, ◌*◌, ◌/◌, ◌^◌, ◌<◌, ◌≤◌, ◌≡◌, refl, inl, inr, true, false, List, [], ◌∷◌, arith,
  length, if◌then◌else◌, leb, Bool-cases,
}
use mxrc.Event.PrioritizedEvent.{PrioritizedEvent, EventPriority, rank, is_expired}
use mxrc.Event.PriorityQueue.{
  PriorityQueue, PriorityQueueMetrics, Counters, count, update_push_metrics, should_drop, place,
  accept, push, shrink, deliver, pop_from, is_superseded,
}

abbrev pub total : Counters → ℕ
total c = c.critical_events + c.high_events + c.normal_events + c.low_events

total-count :
    (p : EventPriority) (c : Counters) → total c + 1 < 2 ^ 64 → total (count p c) ≡ total c + 1
unfolding count
total-count p c h = ground arith

module _ {P : Type 0} where
  -- The number of events whose priority is at most as high as that of rank `r`.
  abbrev pub at_least : ℕ → List (PrioritizedEvent P) → ℕ
  at_least r [] = 0
  at_least r (e ∷ l) = (if leb r (rank e.priority) then 1 else 0) + at_least r l

  at_least_le_length : (r : ℕ) (l : List (PrioritizedEvent P)) → at_least r l ≤ length l
  at_least_le_length r [] = omega arith
  at_least_le_length r (e ∷ l) = ground (arith, at_least_le_length r l)

  at_least-place :
      (r : ℕ) (e : PrioritizedEvent P) (l : List (PrioritizedEvent P))
      → at_least r (place e l) ≡ (if leb r (rank e.priority) then 1 else 0) + at_least r l
  unfolding place
  at_least-place r e [] = refl
  at_least-place r e (f ∷ l) = ground (arith, at_least-place r e l)

  length-place :
      (e : PrioritizedEvent P) (l : List (PrioritizedEvent P)) → length (place e l) ≡ length l + 1
  unfolding place
  length-place e [] = omega arith
  length-place e (f ∷ l) = ground (arith, length-place e l)

  -- The bounds of a queue of capacity `full` that has accepted at most `n` events.
  pub record Holds (full n : ℕ) (q : PriorityQueue P) : Type 0 where
    pub sized : q.size ≡ length q.queue
    pub whole : q.capacity ≡ full
    pub eighty : q.drop_threshold_80 ≡ full * 8 / 10
    pub ninety : q.drop_threshold_90 ≡ full * 9 / 10
    pub low_events : at_least 3 q.queue ≤ q.drop_threshold_80
    pub normal_events : at_least 2 q.queue ≤ q.drop_threshold_90
    pub high_events : at_least 1 q.queue ≤ q.capacity
    pub balance :
        q.metrics.events_popped + q.metrics.events_expired + length q.queue ≤ total q.metrics.pushed
    pub few : total q.metrics.pushed ≤ n

  accept-Holds :
      (full n : ℕ) (e : PrioritizedEvent P) (q : PriorityQueue P)
      → n + 1 < 2 ^ 64
      → Holds full n q
      → should_drop e.priority q ≡ false
      → Holds full (n + 1) (accept e q)
  unfolding accept update_push_metrics
  accept-Holds full n e q small h keep =
      let t = total-count e.priority q.metrics.pushed (omega (arith, h.few, small)) in
      let l = length-place e q.queue in
      record {
        sized = ground (arith, h.sized, l, h.balance, h.few);
        whole = h.whole;
        eighty = h.eighty;
        ninety = h.ninety;
        low_events =
            unfold should_drop in
            ground (
              arith,
              h.low_events,
              h.sized,
              at_least-place 3 e q.queue,
              at_least_le_length 3 q.queue,
            );
        normal_events =
            unfold should_drop in
            ground (
              arith,
              h.normal_events,
              h.eighty,
              h.ninety,
              h.whole,
              h.sized,
              at_least-place 2 e q.queue,
              at_least_le_length 2 q.queue,
            );
        high_events =
            unfold should_drop in
            ground (
              arith,
              h.high_events,
              h.eighty,
              h.ninety,
              h.whole,
              h.ninety,
              h.sized,
              at_least-place 1 e q.queue,
              at_least_le_length 1 q.queue,
            );
        balance = omega (arith, h.balance, t, l);
        few = omega (arith, t, h.few);
      }

  drop-Holds :
      (full n : ℕ) (p : EventPriority) (q : PriorityQueue P)
      → Holds full n q
      → Holds full (n + 1) (record q { metrics = update_push_metrics p true q.metrics })
  unfolding update_push_metrics
  drop-Holds full n p q h = record {
    sized = h.sized;
    whole = h.whole;
    eighty = h.eighty;
    ninety = h.ninety;
    low_events = h.low_events;
    normal_events = h.normal_events;
    high_events = h.high_events;
    balance = h.balance;
    few = omega (arith, h.few);
  }

  pub push-Holds :
      (full n : ℕ) (e : PrioritizedEvent P) (q : PriorityQueue P)
      → n + 1 < 2 ^ 64
      → Holds full n q
      → Holds full (n + 1) (push e q).0
  unfolding push
  push-Holds full n e q small h = elim (Bool-cases (should_drop e.priority q)) [
    | inl d ↦ rw (d, push) (drop-Holds full n e.priority q h)
    | inr d ↦ rw (d, push) (accept-Holds full n e q small h d)
  ]

  -- What is left when the event on top is gone, as expired or otherwise.
  shrink-Holds :
      (full n : ℕ) (e : PrioritizedEvent P) (rest : List (PrioritizedEvent P)) (q : PriorityQueue P)
      → n < 2 ^ 64
      → q.queue ≡ e ∷ rest
      → Holds full n q
      → (m : PriorityQueueMetrics) → m.pushed ≡ q.metrics.pushed
      → m.events_popped + m.events_expired ≤ q.metrics.events_popped + q.metrics.events_expired + 1
      → (latest : List (String × ℕ))
      → Holds full n (record (shrink rest q) { metrics = m; coalescing_latest_seq = latest })
  unfolding shrink
  shrink-Holds full n e rest q small top h m same more latest = record {
    sized = ground (arith, h.sized, top, h.balance, h.few);
    whole = h.whole;
    eighty = h.eighty;
    ninety = h.ninety;
    low_events = ground (arith, h.low_events, top);
    normal_events = ground (arith, h.normal_events, top);
    high_events = ground (arith, h.high_events, top);
    balance = ground (arith, h.balance, top, same, more);
    few = ground (arith, h.few, same);
  }

  pub pop_from-Holds :
      (full n : ℕ) (l : List (PrioritizedEvent P)) (now : PrioritizedEvent P → ℕ)
      (q : PriorityQueue P)
      → n < 2 ^ 64
      → q.queue ≡ l
      → Holds full n q
      → Holds full n (pop_from l now q).1
  unfolding pop_from shrink deliver
  pop_from-Holds full n [] now q small top h = h
  pop_from-Holds full n (e ∷ rest) now q small top h =
      let gone = shrink-Holds full n e rest q small top h in
      elim (Bool-cases (is_expired (now e) e)) [
        | inl x ↦
            rw (pop_from, x)
              (pop_from-Holds full n rest now _ small refl (gone _ refl (omega arith) _))
        | inr x ↦ elim (Bool-cases (is_superseded e q.coalescing_latest_seq)) [
          | inl y ↦
              rw (pop_from, x, y)
                (pop_from-Holds full n rest now _ small refl (gone _ refl (omega arith) _))
          | inr y ↦ rw (pop_from, x, y) (gone _ refl (omega arith) _)
        ]
      ]
