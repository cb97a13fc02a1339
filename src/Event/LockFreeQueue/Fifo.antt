-- ===== src/Event/LockFreeQueue/Fifo.antt =====
-- The ring buffer is a queue, however the steps of the two threads interleave.
use mxrc.Common.{ℕ, suc, ◌<◌, ◌≡◌, ◌⊎◌, refl, inl, inr, List, [], ◌∷◌, ◌++◌, arith}
use mxrc.Event.LockFreeQueue.{SpscLockFreeQueue, Producer, Consumer, new, produce, consume, size}
use mxrc.Event.LockFreeQueue.Ring.{segment}
use mxrc.Event.LockFreeQueue.Steps.{Waits, starts, writes, publishes, tests, reads, pops}

-- One step of a thread; the producer's has the item for a call that starts with it.
pub data Move (A : Type 0) : Type 0 where
  producer_moves : A → Move A
  consumer_moves : Move A

module _ {A : Type 0} where
  unfoldable pub step : SpscLockFreeQueue A → Move A → SpscLockFreeQueue A
  step q (producer_moves x) = produce x q
  step q consumer_moves = consume q

  unfoldable pub run : SpscLockFreeQueue A → List (Move A) → SpscLockFreeQueue A
  run q [] = q
  run q (m ∷ ms) = run (step q m) ms

  Producer-cases :
      (p : Producer A)
      → (p ≡ Producer.idle)
        ⊎ ((y : A) × (i : ℕ) × (next : ℕ) × (p ≡ Producer.checked y i next))
        ⊎ ((y : A) × (next : ℕ) × (p ≡ Producer.written y next))
  Producer-cases Producer.idle = inl refl
  Producer-cases (Producer.checked y i next) = inr (inl (y, i, next, refl))
  Producer-cases (Producer.written y next) = inr (inr (y, next, refl))

  Consumer-cases :
      (k : Consumer A)
      → (k ≡ Consumer.idle)
        ⊎ ((i : ℕ) × (k ≡ Consumer.checked i))
        ⊎ ((i : ℕ) × (y : A) × (k ≡ Consumer.read i y))
  Consumer-cases Consumer.idle = inl refl
  Consumer-cases (Consumer.checked i) = inr (inl (i, refl))
  Consumer-cases (Consumer.read i y) = inr (inr (i, y, refl))

  step-Waits :
      (c n : ℕ) (q : SpscLockFreeQueue A) (m : Move A)
      → Waits c n q
      → (k : ℕ) × Waits c k (step q m)
  unfolding step
  step-Waits c n q (producer_moves x) h = elim (Producer-cases q.producer) [
    | inl e ↦ (n, starts c n q h x e)
    | inr (inl (y, i, next, e)) ↦ (n, writes c n q h x y i next e)
    | inr (inr (y, next, e)) ↦ (suc n, publishes c n q h x y next e)
  ]
  step-Waits c n q consumer_moves h = elim (Consumer-cases q.consumer) [
    | inl e ↦ (n, tests c n q h e)
    | inr (inl (i, e)) ↦ (n, reads c n q h i e)
    | inr (inr (i, y, e)) ↦ pops c n q i y h e
  ]

  steps-Waits :
      (c n : ℕ) (q : SpscLockFreeQueue A) (ms : List (Move A))
      → Waits c n q
      → (k : ℕ) × Waits c k (run q ms)
  unfolding run
  steps-Waits c n q [] h = (n, h)
  steps-Waits c n q (m ∷ ms) h =
      let next = step-Waits c n q m h in steps-Waits c next.0 (step q m) ms next.1

  size_eq : (c n : ℕ) (q : SpscLockFreeQueue A) → Waits c n q → size q ≡ n
  unfolding size
  size_eq c n q h = ground (arith, h.ends, h.begins, h.fits, h.whole)

  -- However the steps of the producer and the consumer of a queue of positive capacity interleave, the
  -- items pushed are those popped, in the same order, followed by the `size` items of the ring from the
  -- read position on; and the size stays below the capacity.
  pub run-segment :
      (c : ℕ) (a : A) (ms : List (Move A))
      → 0 < c
      → let q = run (new c a) ms in
        (q.pushed ≡ q.popped ++ segment c q.buffer q.read_pos (size q)) × (size q < c)
  unfolding new
  run-segment c a ms some_room =
      let start : Waits c 0 (new c a) = record {
        whole = refl;
        begins = some_room;
        ends = ground (arith, some_room);
        fits = some_room;
        order = refl;
        producing = tt;
        consuming = tt;
      } in
      let (n, h) = steps-Waits c 0 (new c a) ms start in
      let same = size_eq c n (run (new c a) ms) h in (rw same h.order, rw same h.fits)
