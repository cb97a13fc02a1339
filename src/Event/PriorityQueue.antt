-- ===== src/Event/PriorityQueue.antt =====
-- src/core/event/core/PriorityQueue.{h,cpp}. One call is one step: the source checks the size before
-- it takes its lock and counts after releasing it, which is not modelled.
pub mod Bounds
pub mod Order
pub mod Runs
pub mod Coalescing
use mxrc.Common.{
  ℕ, ◌+◌, ◌-◌, ◌*◌, ◌/◌, ◌%◌, ◌^◌, String, Bool, true, false, Option, none, some, List, [], ◌∷◌,
  ◌||◌, ◌==◌, not, ltb, if◌then◌else◌, u64_inc, lookup, insert, erase,
}
use mxrc.Event.PrioritizedEvent.{
  PrioritizedEvent, EventPriority, critical, high, normal, low, rank, is_expired, is_less,
}

-- Four counters, by priority.
pub record Counters : Type 0 where
  pub critical_events : ℕ
  pub high_events : ℕ
  pub normal_events : ℕ
  pub low_events : ℕ

pub record PriorityQueueMetrics : Type 0 where
  pub pushed : Counters
  pub dropped : Counters
  pub events_popped : ℕ
  pub events_expired : ℕ
  pub events_coalesced : ℕ
  pub current_size : ℕ
  pub peak_size : ℕ

-- `queue` is the heap, in the order in which its events will be popped.
pub record PriorityQueue (P : Type 0) : Type 0 where
  pub capacity : ℕ
  pub drop_threshold_80 : ℕ
  pub drop_threshold_90 : ℕ
  pub queue : List (PrioritizedEvent P)
  pub size : ℕ
  pub coalescing_latest_seq : List (String × ℕ)
  pub metrics : PriorityQueueMetrics

abbrev no_events : Counters
no_events = record { critical_events = 0; high_events = 0; normal_events = 0; low_events = 0 }

unfoldable pub no_metrics : PriorityQueueMetrics
no_metrics = record {
  pushed = no_events;
  dropped = no_events;
  events_popped = 0;
  events_expired = 0;
  events_coalesced = 0;
  current_size = 0;
  peak_size = 0;
}

unfoldable pub count : EventPriority → Counters → Counters
count critical c = record c { critical_events = u64_inc c.critical_events }
count high c = record c { high_events = u64_inc c.high_events }
count normal c = record c { normal_events = u64_inc c.normal_events }
count low c = record c { low_events = u64_inc c.low_events }

unfoldable pub update_push_metrics :
    EventPriority → Bool → PriorityQueueMetrics → PriorityQueueMetrics
update_push_metrics p true m = record m { dropped = count p m.dropped }
update_push_metrics p false m = record m { pushed = count p m.pushed }

abbrev is_low : EventPriority → Bool
is_low p = rank p == 3

abbrev is_normal : EventPriority → Bool
is_normal p = rank p == 2

abbrev is_high : EventPriority → Bool
is_high p = rank p == 1

-- `--size` on a size_t.
abbrev u64_dec : ℕ → ℕ
u64_dec n = (n + 2 ^ 64 - 1) % 2 ^ 64

-- The sequence number of the newest event of the key, and the number of coalesced events.
unfoldable pub track_key : Option String → ℕ → List (String × ℕ) × ℕ → List (String × ℕ) × ℕ
track_key none n t = t
track_key (some key) n (latest, coalesced) = (
  insert key n latest,
  elim (lookup key latest) [ none ↦ coalesced | some m ↦ u64_inc coalesced ],
)

abbrev forget_key : Option String → List (String × ℕ) → List (String × ℕ)
forget_key none latest = latest
forget_key (some key) latest = erase key latest

module _ {P : Type 0} where
  -- The source multiplies by 0.8 and 0.9 in floating point; below 2^50 the integer parts are these.
  unfoldable pub new : ℕ → PriorityQueue P
  new capacity = record {
    capacity = capacity;
    drop_threshold_80 = capacity * 8 / 10;
    drop_threshold_90 = capacity * 9 / 10;
    queue = [];
    size = 0;
    coalescing_latest_seq = [];
    metrics = no_metrics;
  }

  unfoldable pub should_drop : EventPriority → PriorityQueue P → Bool
  should_drop p q =
      if rank p == 0
      then false
      else if ltb q.size q.drop_threshold_80
      then false
      else if ltb q.size q.drop_threshold_90
      then is_low p
      else if ltb q.size q.capacity
      then is_low p || is_normal p
      else is_low p || is_normal p || is_high p

  -- The heap fixes no order between events that compare equal; here they keep their order.
  unfoldable pub place : PrioritizedEvent P → List (PrioritizedEvent P) → List (PrioritizedEvent P)
  place e [] = e ∷ []
  place e (f ∷ rest) = let later = place e rest in if is_less f e then e ∷ f ∷ rest else f ∷ later

  unfoldable pub accept : PrioritizedEvent P → PriorityQueue P → PriorityQueue P
  accept e q =
      let t =
        track_key e.coalescing_key e.sequence_num
          (q.coalescing_latest_seq, q.metrics.events_coalesced) in
      let n = u64_inc q.size in
      record q {
        queue = place e q.queue;
        size = n;
        coalescing_latest_seq = t.0;
        metrics = update_push_metrics e.priority false (record q.metrics {
          events_coalesced = t.1;
          current_size = n;
          peak_size = if ltb q.metrics.peak_size n then n else q.metrics.peak_size;
        });
      }

  unfoldable pub push : PrioritizedEvent P → PriorityQueue P → PriorityQueue P × Bool
  push e q =
      if should_drop e.priority q
      then (record q { metrics = update_push_metrics e.priority true q.metrics }, false)
      else (accept e q, true)

  -- Whether a newer event of the key has been pushed.
  unfoldable pub is_superseded : PrioritizedEvent P → List (String × ℕ) → Bool
  is_superseded e latest = elim e.coalescing_key [
    | none ↦ false
    | some key ↦ elim (lookup key latest) [ none ↦ false | some n ↦ not (n == e.sequence_num) ]
  ]

  -- The event on top leaves the heap, whatever becomes of it.
  unfoldable pub shrink : List (PrioritizedEvent P) → PriorityQueue P → PriorityQueue P
  shrink rest q =
      let n = u64_dec q.size in
      record q { queue = rest; size = n; metrics = record q.metrics { current_size = n } }

  abbrev expire : PriorityQueue P → PriorityQueue P
  expire q = record q {
    metrics = record q.metrics { events_expired = u64_inc q.metrics.events_expired };
  }

  unfoldable pub deliver : PrioritizedEvent P → PriorityQueue P → PriorityQueue P
  deliver e q = record q {
    coalescing_latest_seq = forget_key e.coalescing_key q.coalescing_latest_seq;
    metrics = record q.metrics { events_popped = u64_inc q.metrics.events_popped };
  }

  -- The loop of `pop` over the events of the heap, each checked with its clock reading.
  unfoldable pub pop_from :
      List (PrioritizedEvent P)
      → (PrioritizedEvent P → ℕ)
      → PriorityQueue P
      → Option (PrioritizedEvent P) × PriorityQueue P
  pop_from [] now q = (none, q)
  pop_from (e ∷ rest) now q =
      let shorter = shrink rest q in
      let further = pop_from rest now (if is_expired (now e) e then expire shorter else shorter) in
      if is_expired (now e) e
      then further
      else (if is_superseded e q.coalescing_latest_seq
          then further
          else (some e, deliver e shorter))

  unfoldable pub pop :
      (PrioritizedEvent P → ℕ) → PriorityQueue P → Option (PrioritizedEvent P) × PriorityQueue P
  pop now q = pop_from q.queue now q

  unfoldable pub empty : PriorityQueue P → Bool
  empty q = q.size == 0

  -- The size of the queue itself stays.
  unfoldable pub reset_metrics : PriorityQueue P → PriorityQueue P
  reset_metrics q = record q { metrics = no_metrics }
