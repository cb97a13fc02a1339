-- ===== src/Event/LockFreeQueue.antt =====
-- src/core/event/util/LockFreeQueue.h: the ring buffer of one producer and one consumer, as the steps
-- that the two threads interleave. Each atomic load or store that the other thread can see, and each
-- access to the buffer, is in a step of its own; the release and acquire orders of the source make the
-- steps of a thread visible in their order.
pub mod Ring
pub mod Steps
pub mod Fifo
use mxrc.Common.{
  ℕ, ◌+◌, ◌-◌, ◌%◌, Bool, true, false, Option, none, some, List, [], ◌∷◌, ◌++◌, leb, ◌==◌,
  if◌then◌else◌,
}

-- Where `tryPush` is: before it, after the test for a full queue, and after the write to the buffer.
pub data Producer (A : Type 0) : Type 0 where
  idle : Producer A
  checked : A → ℕ → ℕ → Producer A
  written : A → ℕ → Producer A

-- Where `tryPop` is: before it, after the test for an empty queue, and after the read of the buffer.
pub data Consumer (A : Type 0) : Type 0 where
  idle : Consumer A
  checked : ℕ → Consumer A
  read : ℕ → A → Consumer A

-- The queue, with the items of the calls that have answered true. `buffer` is the vector of length
-- `capacity`.
pub record SpscLockFreeQueue (A : Type 0) : Type 0 where
  pub buffer : ℕ → A
  pub write_pos : ℕ
  pub read_pos : ℕ
  pub capacity : ℕ
  pub producer : Producer A
  pub consumer : Consumer A
  pub pushed : List A
  pub popped : List A

abbrev pub set {ℓ} : {A : Type ℓ} → ℕ → A → (ℕ → A) → ℕ → A
set i x b j = if j == i then x else b j

module _ {A : Type 0} where
  -- The vector holds default values at first.
  unfoldable pub new : ℕ → A → SpscLockFreeQueue A
  new capacity a = record {
    buffer = λ i. a;
    write_pos = 0;
    read_pos = 0;
    capacity = capacity;
    producer = Producer.idle;
    consumer = Consumer.idle;
    pushed = [];
    popped = [];
  }

  -- The next step of `tryPush`; an idle producer starts to push `x`. A full queue ends the call.
  unfoldable pub produce : A → SpscLockFreeQueue A → SpscLockFreeQueue A
  produce x q = elim q.producer [
    | Producer.idle ↦
        let next_write = (q.write_pos + 1) % q.capacity in
        if next_write == q.read_pos
        then q
        else record q { producer = Producer.checked x q.write_pos next_write }
    | Producer.checked y i next_write ↦ record q {
      buffer = set i y q.buffer;
      producer = Producer.written y next_write;
    }
    | Producer.written y next_write ↦ record q {
      write_pos = next_write;
      producer = Producer.idle;
      pushed = q.pushed ++ y ∷ [];
    }
  ]

  -- The next step of `tryPop`. An empty queue ends the call.
  unfoldable pub consume : SpscLockFreeQueue A → SpscLockFreeQueue A
  consume q = elim q.consumer [
    | Consumer.idle ↦
        if q.read_pos == q.write_pos then q else record q { consumer = Consumer.checked q.read_pos }
    | Consumer.checked i ↦ record q { consumer = Consumer.read i (q.buffer i) }
    | Consumer.read i y ↦ record q {
      read_pos = (i + 1) % q.capacity;
      consumer = Consumer.idle;
      popped = q.popped ++ y ∷ [];
    }
  ]

  unfoldable pub size : SpscLockFreeQueue A → ℕ
  size q =
      if leb q.read_pos q.write_pos
      then q.write_pos - q.read_pos
      else q.capacity - q.read_pos + q.write_pos

  unfoldable pub empty : SpscLockFreeQueue A → Bool
  empty q = q.read_pos == q.write_pos
