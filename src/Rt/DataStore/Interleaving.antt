-- ===== src/Rt/DataStore/Interleaving.antt =====
-- src/core/rt/RTDataStore.cpp: one setter and one getter of the same entry in two threads, as the
-- sequences of their single steps, and what the getter's loop lets through.
use mxrc.Common.{ℕ, ◌+◌, ◌%◌, ◌^◌, ◌<◌, ◌≤◌, ◌≡◌, List, [], ◌∷◌, arith}
use mxrc.Rt.DataStore.{
  DataType, Value, DataEntry, Place, Reader, before_seq1, before_type, before_value, before_seq2,
  left, count_seq, put_value, put_type, put_time, read_step,
}

-- What a setter was called with, and the time that it reads.
pub record Write (F D : Type 0) : Type 0 where
  pub type : DataType
  pub value : Value F D
  pub now : ℕ

-- Where a setter stands: between two calls, or behind one of its first four writes.
pub data Writer (F D : Type 0) : Type 0 where
  idle : Writer F D
  counted valued typed timed : Write F D → Writer F D

-- The entry, the two threads, and the last write that has ended.
pub record Shared (F D : Type 0) : Type 0 where
  pub entry : DataEntry F D
  pub writer : Writer F D
  pub reader : Reader F D
  pub last : Write F D

pub data Step (F D : Type 0) : Type 0 where
  starts : Write F D → Step F D
  writes reads : Step F D

module _ {F D : Type 0} where
  unfoldable pub write_step : Writer F D → Shared F D → Shared F D
  write_step idle s = s
  write_step (counted w) s = record s { entry = put_value w.value s.entry; writer = valued w }
  write_step (valued w) s = record s { entry = put_type w.type s.entry; writer = typed w }
  write_step (typed w) s = record s { entry = put_time w.now s.entry; writer = timed w }
  write_step (timed w) s = record s { entry = count_seq s.entry; writer = idle; last = w }

  -- A call is let in when the one before has ended.
  unfoldable pub start_step : Writer F D → Write F D → Shared F D → Shared F D
  start_step idle w s = record s { entry = count_seq s.entry; writer = counted w }
  start_step (counted v) w s = s
  start_step (valued v) w s = s
  start_step (typed v) w s = s
  start_step (timed v) w s = s

  unfoldable pub step : Shared F D → Step F D → Shared F D
  step s (starts w) = start_step s.writer w s
  step s writes = write_step s.writer s
  step s reads = record s { reader = read_step s.entry s.reader }

  unfoldable pub run : Shared F D → List (Step F D) → Shared F D
  run s [] = s
  run s (a ∷ rest) = run (step s a) rest

  -- The entry against the setter.
  abbrev pub Writes : Writer F D → DataEntry F D → Write F D → Type 0
  Writes idle e w = (e.seq % 2 ≡ 0) × (e.type ≡ w.type) × (e.value ≡ w.value)
  Writes (counted v) e w = e.seq % 2 ≡ 1
  Writes (valued v) e w = (e.seq % 2 ≡ 1) × (e.value ≡ v.value)
  Writes (typed v) e w = (e.seq % 2 ≡ 1) × (e.type ≡ v.type) × (e.value ≡ v.value)
  Writes (timed v) e w = (e.seq % 2 ≡ 1) × (e.type ≡ v.type) × (e.value ≡ v.value)

  -- The getter's variables against the entry: while the sequence number is still the one that the
  -- getter has seen, what it has loaded is what the entry holds.
  abbrev pub Reads : Place → Reader F D → DataEntry F D → Type 0
  Reads before_seq1 r e = Unit
  Reads before_type r e = (r.seq1 ≤ e.seq) × (r.seq1 % 2 ≡ 0)
  Reads before_value r e =
      (r.seq1 ≤ e.seq) × (r.seq1 % 2 ≡ 0) × (r.seq1 ≡ e.seq → r.temp_type ≡ e.type)
  Reads before_seq2 r e =
      (r.seq1 ≤ e.seq)
      × (r.seq1 % 2 ≡ 0)
      × (r.seq1 ≡ e.seq → (r.temp_type ≡ e.type) × (r.temp_value ≡ e.value))
  Reads left r e = Unit

  pub record IsSound (s : Shared F D) : Type 0 where
    pub writer : Writes s.writer s.entry s.last
    pub reader : Reads s.reader.place s.reader s.entry

  pub count_seq-next : (e : DataEntry F D) → e.seq + 1 < 2 ^ 64 → (count_seq e).seq ≡ e.seq + 1
  unfolding count_seq
  count_seq-next e h = omega arith

  -- A change of the sequence number makes the getter try again.
  pub count_seq-Reads :
      (p : Place) (r : Reader F D) (e : DataEntry F D)
      → e.seq + 1 < 2 ^ 64
      → Reads p r e
      → Reads p r (count_seq e)
  unfolding count_seq
  count_seq-Reads before_seq1 r e h k = tt
  count_seq-Reads before_type r e h k = (omega arith, k.1)
  count_seq-Reads before_value r e h k = (omega arith, k.1, λ same. absurd (omega arith))
  count_seq-Reads before_seq2 r e h k = (omega arith, k.1, λ same. absurd (omega arith))
  count_seq-Reads left r e h k = tt

  -- While the number is odd, the entry may change.
  pub put-Reads :
      (p : Place) (r : Reader F D) (e e' : DataEntry F D)
      → e.seq % 2 ≡ 1
      → e'.seq ≡ e.seq
      → Reads p r e
      → Reads p r e'
  put-Reads before_seq1 r e e' h same k = tt
  put-Reads before_type r e e' h same k = (omega arith, k.1)
  put-Reads before_value r e e' h same k = (omega arith, k.1, λ now. absurd (omega arith))
  put-Reads before_seq2 r e e' h same k = (omega arith, k.1, λ now. absurd (omega arith))
  put-Reads left r e e' h same k = tt
