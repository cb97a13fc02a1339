-- ===== src/Event/PriorityQueue/Coalescing.antt =====
-- Two events with one coalescing key.
use mxrc.Common.{
  ℕ, ◌*◌, ◌/◌, ◌<◌, ◌≡◌, refl, ap, ◌∙◌, String, true, false, none, some, List, [], ◌∷◌, arith,
  if◌then◌else◌, lookup, lookup-inserted, lookup-erase, eq_refl, ◌==◌, not,
}
use mxrc.Event.PrioritizedEvent.{PrioritizedEvent, is_expired, is_less}
use mxrc.Event.PriorityQueue.{
  PriorityQueue, new, push, accept, should_drop, place, track_key, shrink, deliver, pop_from, pop,
  is_superseded,
}

module _ {P : Type 0} where
  superseded :
      (key : String) (n : ℕ) (e : PrioritizedEvent P) (latest : List (String × ℕ))
      → e.coalescing_key ≡ some key
      → lookup key latest ≡ some n
      → is_superseded e latest ≡ not (n == e.sequence_num)
  unfolding is_superseded
  superseded key n e latest k found = rw (is_superseded, k, found) refl

  untracked :
      (key : String) (e : PrioritizedEvent P) (latest : List (String × ℕ))
      → e.coalescing_key ≡ some key
      → lookup key latest ≡ none
      → is_superseded e latest ≡ false
  unfolding is_superseded
  untracked key e latest k found = rw (is_superseded, k, found) refl

  delivers :
      (e : PrioritizedEvent P) (rest : List (PrioritizedEvent P)) (now : PrioritizedEvent P → ℕ)
      (q : PriorityQueue P)
      → is_expired (now e) e ≡ false
      → is_superseded e q.coalescing_latest_seq ≡ false
      → pop_from (e ∷ rest) now q ≡ (some e, deliver e (shrink rest q))
  unfolding pop_from
  delivers e rest now q x y = rw (pop_from, x, y) refl

  skips :
      (e : PrioritizedEvent P) (rest : List (PrioritizedEvent P)) (now : PrioritizedEvent P → ℕ)
      (q : PriorityQueue P)
      → is_expired (now e) e ≡ false
      → is_superseded e q.coalescing_latest_seq ≡ true
      → pop_from (e ∷ rest) now q ≡ pop_from rest now (shrink rest q)
  unfolding pop_from
  skips e rest now q x y = rw (pop_from, x, y) refl

  accepts :
      (e : PrioritizedEvent P) (q : PriorityQueue P)
      → q.size < q.drop_threshold_80
      → push e q ≡ (accept e q, true)
  unfolding push should_drop
  accepts e q h = ground (arith, h)

  tracks :
      (key : String) (e : PrioritizedEvent P) (q : PriorityQueue P)
      → e.coalescing_key ≡ some key
      → lookup key (accept e q).coalescing_latest_seq ≡ some e.sequence_num
  unfolding accept track_key
  tracks key e q k = rw (accept, k) (lookup-inserted key e.sequence_num q.coalescing_latest_seq)

  forgets :
      (key : String) (e : PrioritizedEvent P) (q : PriorityQueue P)
      → e.coalescing_key ≡ some key
      → lookup key (deliver e q).coalescing_latest_seq ≡ none
  unfolding deliver
  forgets key e q k =
      rw (deliver, k) (ground (arith, lookup-erase key key q.coalescing_latest_seq, eq_refl key))

-- Two events with one key and different sequence numbers, neither of them expired when it is popped,
-- and a queue with room for both.
pub record IsPair {P : Type 0} (key : String) (older newer : PrioritizedEvent P)
    (now : PrioritizedEvent P → ℕ) (capacity : ℕ) : Type 0 where
  pub first_key : older.coalescing_key ≡ some key
  pub second_key : newer.coalescing_key ≡ some key
  pub distinct : (newer.sequence_num == older.sequence_num) ≡ false
  pub first_fresh : is_expired (now older) older ≡ false
  pub second_fresh : is_expired (now newer) newer ≡ false
  pub room : 1 < capacity * 8 / 10

module _ {P : Type 0} (key : String) (older newer : PrioritizedEvent P) (capacity : ℕ)
    (now : PrioritizedEvent P → ℕ) (pair : IsPair key older newer now capacity) where
  abbrev both : PriorityQueue P
  both = (push newer (push older (new capacity)).0).0

  both_eq : both ≡ accept newer (accept older (new capacity))
  both_eq =
      let one : push older (new capacity) ≡ (accept older (new capacity), true) =
        accepts older (new capacity) (unfold new in omega (arith, pair.room)) in
      let two : push newer (accept older (new capacity))
          ≡ (accept newer (accept older (new capacity)), true) =
        accepts newer (accept older (new capacity))
          (unfold new accept in omega (arith, pair.room)) in
      ap (λ r. (push newer r.0).0) one ∙ ap (λ r. r.0) two

  tracked : lookup key both.coalescing_latest_seq ≡ some newer.sequence_num
  tracked =
      ap (λ q. lookup key q.coalescing_latest_seq) both_eq
      ∙ tracks key newer (accept older (new capacity)) pair.second_key

  waiting : both.queue ≡ (if is_less older newer then newer ∷ older ∷ [] else older ∷ newer ∷ [])
  unfolding accept new place
  waiting = ap (λ q. q.queue) both_eq

  older_superseded : is_superseded older both.coalescing_latest_seq ≡ true
  older_superseded =
      superseded key newer.sequence_num older _ pair.first_key tracked ∙ ap not pair.distinct

  newer_latest : is_superseded newer both.coalescing_latest_seq ≡ false
  newer_latest = superseded key newer.sequence_num newer _ pair.second_key tracked ∙ ground arith

  -- Two events with one coalescing key and different sequence numbers are pushed, one after the other,
  -- on a new queue of a capacity of which 80 % is more than one event. If neither has expired when pop
  -- looks at it, and the older does not come after the newer in the order of the queue, then one pop
  -- skips the older, answers with the newer, and leaves the queue empty.
  pub pop-newer :
      is_less older newer ≡ false → ((pop now both).0 ≡ some newer) × ((pop now both).1.queue ≡ [])
  unfolding pop shrink deliver
  pop-newer h =
      let top : both.queue ≡ older ∷ newer ∷ [] = ground (arith, waiting, h) in
      let first = skips older (newer ∷ []) now both pair.first_fresh older_superseded in
      let second =
        delivers newer [] now (shrink (newer ∷ []) both) pair.second_fresh newer_latest in
      let popped : pop now both
          ≡ (some newer, deliver newer (shrink [] (shrink (newer ∷ []) both))) =
        ap (λ l. pop_from l now both) top ∙ first ∙ second in
      (ap (λ r. r.0) popped, ap (λ r. r.1.queue) popped)

  -- If the newer of two events with one coalescing key is popped first, since its priority is higher,
  -- the older one is no longer skipped: the next pop answers with it.
  pub pop-stale :
      is_less older newer ≡ true
      → ((pop now both).0 ≡ some newer) × ((pop now (pop now both).1).0 ≡ some older)
  unfolding pop shrink deliver
  pop-stale h =
      let top : both.queue ≡ newer ∷ older ∷ [] = ground (arith, waiting, h) in
      let left = deliver newer (shrink (older ∷ []) both) in
      let popped : pop now both ≡ (some newer, left) =
        ap (λ l. pop_from l now both) top
        ∙ delivers newer (older ∷ []) now both pair.second_fresh newer_latest in
      let forgotten : is_superseded older left.coalescing_latest_seq ≡ false =
        untracked key older _ pair.first_key
          (forgets key newer (shrink (older ∷ []) both) pair.second_key) in
      (
        ap (λ r. r.0) popped,
        ap (λ r. (pop now r.1).0) popped
            ∙ ap (λ r. r.0) (delivers older [] now left pair.first_fresh forgotten),
      )
