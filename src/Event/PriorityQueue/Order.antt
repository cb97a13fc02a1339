-- ===== src/Event/PriorityQueue/Order.antt =====
-- The order in which the events of the queue are popped.
use mxrc.Common.{
  ℕ, ◌<◌, ◌≤◌, ◌≡◌, ◌⊎◌, refl, inl, inr, true, false, Option, none, some, List, [], ◌∷◌, arith, All,
  All-imp, Bool-cases,
}
use mxrc.Event.PrioritizedEvent.{PrioritizedEvent, rank, is_expired, is_less}
use mxrc.Event.PriorityQueue.{
  PriorityQueue, place, push, accept, should_drop, shrink, deliver, pop_from, is_superseded,
}

module _ {P : Type 0} where
  -- `e` comes before `f`, or they are equal, in priority (CRITICAL first), and among equals in time,
  -- and among these in sequence number.
  abbrev pub Precedes : PrioritizedEvent P → PrioritizedEvent P → Type 0
  Precedes e f =
      (rank e.priority < rank f.priority)
      ⊎ ((rank e.priority ≡ rank f.priority)
          × ((e.timestamp_ns < f.timestamp_ns)
              ⊎ ((e.timestamp_ns ≡ f.timestamp_ns) × (e.sequence_num ≤ f.sequence_num))))

  Precedes-trans : (e f g : PrioritizedEvent P) → Precedes e f → Precedes f g → Precedes e g
  Precedes-trans e f g a b = ground arith

  is_less-Precedes : (e f : PrioritizedEvent P) → is_less e f ≡ true → Precedes f e
  unfolding is_less
  is_less-Precedes e f h = ground arith

  not_less-Precedes : (e f : PrioritizedEvent P) → is_less e f ≡ false → Precedes e f
  unfolding is_less
  not_less-Precedes e f h = ground arith

  abbrev pub IsSorted : List (PrioritizedEvent P) → Type 0
  IsSorted [] = Unit
  IsSorted (e ∷ l) = All (Precedes e) l × IsSorted l

  All-place :
      (e f : PrioritizedEvent P) (l : List (PrioritizedEvent P))
      → Precedes e f
      → All (Precedes e) l
      → All (Precedes e) (place f l)
  unfolding place
  All-place e f [] h a = (h, tt)
  All-place e f (g ∷ l) h a = elim (Bool-cases (is_less g f)) [
    | inl x ↦ rw (place, x) (h, a)
    | inr x ↦ rw (place, x) (a.0, All-place e f l h a.1)
  ]

  place-IsSorted :
      (e : PrioritizedEvent P) (l : List (PrioritizedEvent P)) → IsSorted l → IsSorted (place e l)
  unfolding place
  place-IsSorted e [] s = (tt, tt)
  place-IsSorted e (f ∷ l) s = elim (Bool-cases (is_less f e)) [
    | inl x ↦
        let first = is_less-Precedes f e x in
        rw (place, x) ((first, All-imp (λ g h. Precedes-trans e f g first h) l s.0), s)
    | inr x ↦ rw (place, x) (All-place f e l (not_less-Precedes f e x) s.0, place-IsSorted e l s.1)
  ]

  pub push-IsSorted :
      (e : PrioritizedEvent P) (q : PriorityQueue P)
      → IsSorted q.queue
      → IsSorted (push e q).0.queue
  unfolding push accept
  push-IsSorted e q s = elim (Bool-cases (should_drop e.priority q)) [
    | inl d ↦ rw (d, push) s
    | inr d ↦ rw (d, push) (place-IsSorted e q.queue s)
  ]

  -- What `pop` leaves behind after its answer.
  abbrev pub Leaves : Option (PrioritizedEvent P) → List (PrioritizedEvent P) → Type 0
  Leaves none l = l ≡ []
  Leaves (some e) l = All (Precedes e) l

  pub pop_from-Leaves :
      (l : List (PrioritizedEvent P)) (now : PrioritizedEvent P → ℕ) (q : PriorityQueue P)
      → q.queue ≡ l
      → IsSorted l
      → let r = pop_from l now q in Leaves r.0 r.1.queue × IsSorted r.1.queue
  unfolding pop_from shrink deliver
  pop_from-Leaves [] now q top s = (top, rw top tt)
  pop_from-Leaves (e ∷ rest) now q top s = elim (Bool-cases (is_expired (now e) e)) [
    | inl x ↦ rw (pop_from, x) (pop_from-Leaves rest now _ refl s.1)
    | inr x ↦ elim (Bool-cases (is_superseded e q.coalescing_latest_seq)) [
      | inl y ↦ rw (pop_from, x, y) (pop_from-Leaves rest now _ refl s.1)
      | inr y ↦ rw (pop_from, x, y) s
    ]
  ]
