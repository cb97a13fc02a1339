-- ===== src/Rt/DataStore/Reading.antt =====
-- src/core/rt/RTDataStore.cpp: what a getter has read when it leaves its loop by the comparison of the
-- two sequence numbers.
use mxrc.Common.{
  ℕ, ◌+◌, ◌%◌, ◌^◌, ◌<◌, ◌≤◌, ◌≡◌, refl, sym, ◌∙◌, inl, inr, Bool, true, false, List, [], ◌∷◌,
  arith, length, ◌==◌, if◌then◌else◌, Bool-cases, subst,
}
use mxrc.Rt.DataStore.{
  DataType, Value, DataEntry, Place, Reader, new_entry, before_seq1, before_type, before_value,
  before_seq2, left, none_type, unset, count_seq, put_value, put_type, put_time, read_at, read_step,
}
use mxrc.Rt.DataStore.Interleaving.{
  Write, Writer, idle, counted, valued, typed, timed, Shared, Step, starts, writes, reads,
  write_step, start_step, step, run, Writes, Reads, IsSound, count_seq-next, count_seq-Reads,
  put-Reads,
}

module _ {F D : Type 0} where
  write-IsSound :
      (w : Writer F D) (s : Shared F D)
      → s.writer ≡ w
      → s.entry.seq + 1 < 2 ^ 64
      → Writes w s.entry s.last
      → Reads s.reader.place s.reader s.entry
      → IsSound (write_step w s)
  unfolding write_step put_value put_type put_time count_seq
  write-IsSound idle s same room h k = record {
    writer = subst (λ (v : Writer F D). Writes v s.entry s.last) (sym same) h;
    reader = k;
  }
  write-IsSound (counted w) s same room h k = record {
    writer = (h, refl);
    reader = put-Reads s.reader.place s.reader s.entry _ h refl k;
  }
  write-IsSound (valued w) s same room h k = record {
    writer = (h.0, refl, h.1);
    reader = put-Reads s.reader.place s.reader s.entry _ h.0 refl k;
  }
  write-IsSound (typed w) s same room h k = record {
    writer = h;
    reader = put-Reads s.reader.place s.reader s.entry _ h.0 refl k;
  }
  write-IsSound (timed w) s same room h k =
      let next = count_seq-next s.entry room in
      record {
        writer = (omega (arith, h.0, next), h.1, h.2);
        reader = count_seq-Reads s.reader.place s.reader s.entry room k;
      }

  start-IsSound :
      (v : Writer F D) (w : Write F D) (s : Shared F D)
      → s.writer ≡ v
      → s.entry.seq + 1 < 2 ^ 64
      → IsSound s
      → Writes v s.entry s.last
      → IsSound (start_step v w s)
  unfolding start_step
  start-IsSound idle w s same room sound h = record {
    writer = omega (arith, h.0, count_seq-next s.entry room);
    reader = count_seq-Reads s.reader.place s.reader s.entry room sound.reader;
  }
  start-IsSound (counted v) w s same room sound h = sound
  start-IsSound (valued v) w s same room sound h = sound
  start-IsSound (typed v) w s same room sound h = sound
  start-IsSound (timed v) w s same room sound h = sound

  -- An even sequence number: the setter is between two calls.
  even-Writes :
      (w : Writer F D) (e : DataEntry F D) (l : Write F D)
      → Writes w e l
      → e.seq % 2 ≡ 0
      → (w ≡ idle) × (e.type ≡ l.type) × (e.value ≡ l.value)
  even-Writes idle e l h even = (refl, h.1, h.2)
  even-Writes (counted v) e l h even = absurd (omega arith)
  even-Writes (valued v) e l h even = absurd (omega (arith, h.0))
  even-Writes (typed v) e l h even = absurd (omega (arith, h.0))
  even-Writes (timed v) e l h even = absurd (omega (arith, h.0))

  -- Behind the test of the loop.
  ended-Reads :
      (same : Bool) (r : Reader F D) (e : DataEntry F D)
      → Reads (if same then left else before_seq1) r e
  ended-Reads true r e = tt
  ended-Reads false r e = tt

  loaded-Reads :
      (odd same : Bool) (r : Reader F D) (e : DataEntry F D)
      → (odd ≡ false → Reads before_type r e)
      → Reads (if odd then (if same then left else before_seq1) else before_type) r e
  loaded-Reads true same r e h = ended-Reads same r e
  loaded-Reads false same r e h = h refl

  read-Reads :
      (p : Place) (r : Reader F D) (e : DataEntry F D)
      → r.place ≡ p
      → Reads p r e
      → Reads (read_at p e r).place (read_at p e r) e
  unfolding read_at
  read-Reads before_seq1 r e at_place h =
      loaded-Reads (e.seq % 2 == 1) (e.seq == r.seq2) (read_at before_seq1 e r) e
        (λ even. (omega arith, ground (arith, even)))
  read-Reads before_type r e at_place h = (h.0, h.1, λ same. refl)
  read-Reads before_value r e at_place h = (h.0, h.1, λ same. (h.2 same, refl))
  read-Reads before_seq2 r e at_place h = ended-Reads (r.seq1 == e.seq) (read_at before_seq2 e r) e
  read-Reads left r e at_place h = subst (λ (p : Place). Reads p r e) (sym at_place) tt

  step-IsSound :
      (s : Shared F D) (a : Step F D) → s.entry.seq + 1 < 2 ^ 64 → IsSound s → IsSound (step s a)
  unfolding step read_step
  step-IsSound s (starts w) room h = start-IsSound s.writer w s refl room h h.writer
  step-IsSound s writes room h = write-IsSound s.writer s refl room h.writer h.reader
  step-IsSound s reads room h = record {
    writer = h.writer;
    reader = read-Reads s.reader.place s.reader s.entry refl h.reader;
  }

  seq-write :
      (w : Writer F D) (s : Shared F D)
      → s.entry.seq + 1 < 2 ^ 64
      → (write_step w s).entry.seq ≤ s.entry.seq + 1
  unfolding write_step put_value put_type put_time count_seq
  seq-write idle s room = omega arith
  seq-write (counted w) s room = omega arith
  seq-write (valued w) s room = omega arith
  seq-write (typed w) s room = omega arith
  seq-write (timed w) s room = omega arith

  seq-start :
      (v : Writer F D) (w : Write F D) (s : Shared F D)
      → s.entry.seq + 1 < 2 ^ 64
      → (start_step v w s).entry.seq ≤ s.entry.seq + 1
  unfolding start_step count_seq
  seq-start idle w s room = omega arith
  seq-start (counted v) w s room = omega arith
  seq-start (valued v) w s room = omega arith
  seq-start (typed v) w s room = omega arith
  seq-start (timed v) w s room = omega arith

  seq-step :
      (s : Shared F D) (a : Step F D)
      → s.entry.seq + 1 < 2 ^ 64
      → (step s a).entry.seq ≤ s.entry.seq + 1
  unfolding step
  seq-step s (starts w) room = seq-start s.writer w s room
  seq-step s writes room = seq-write s.writer s room
  seq-step s reads room = omega arith

  run_from :
      (steps : List (Step F D)) (s : Shared F D)
      → s.entry.seq + length steps < 2 ^ 64
      → IsSound s
      → IsSound (run s steps)
  unfolding run
  run_from [] s room h = h
  run_from (a ∷ rest) s room h =
      let now : s.entry.seq + 1 < 2 ^ 64 = omega arith in
      run_from rest (step s a) (omega (arith, seq-step s a now)) (step-IsSound s a now h)

  -- A new entry, no setter running, and a getter at its beginning, its variables not initialized.
  unfoldable pub begin : ℕ → DataType → Value F D → Shared F D
  begin garbage t v = record {
    entry = new_entry;
    writer = idle;
    reader = record {
      place = before_seq1;
      seq1 = garbage;
      seq2 = garbage;
      temp_type = t;
      temp_value = v;
    };
    last = record { type = none_type; value = unset; now = 0 };
  }

  begin-IsSound : (garbage : ℕ) (t : DataType) (v : Value F D) → IsSound (begin garbage t v)
  unfolding begin new_entry
  begin-IsSound garbage t v = record { writer = (omega arith, refl, refl); reader = tt }

  left-same :
      (r : Reader F D) (e : DataEntry F D) → (read_at before_seq2 e r).place ≡ left → r.seq1 ≡ e.seq
  unfolding read_at
  left-same r e h = elim (Bool-cases (r.seq1 == e.seq)) [
    | inl same ↦ ground (arith, same)
    | inr other ↦ absurd (ground (arith, other, h))
  ]

  checked :
      (s : Shared F D)
      → IsSound s
      → s.reader.place ≡ before_seq2
      → (step s reads).reader.place ≡ left
      → (s.writer ≡ idle)
        × ((step s reads).reader.temp_type ≡ s.last.type)
        × ((step s reads).reader.temp_value ≡ s.last.value)
  unfolding step read_step read_at
  checked s h here leaves =
      let k = subst (λ (p : Place). Reads p s.reader s.entry) here h.reader in
      let out = subst (λ (p : Place). (read_at p s.entry s.reader).place ≡ left) here leaves in
      let same = left-same s.reader s.entry out in
      let (t, v) = k.2 same in
      let (quiet, type, value) =
        even-Writes s.writer s.entry s.last h.writer (omega (arith, k.1, same)) in
      (
        quiet,
        subst (λ (p : Place). (read_at p s.entry s.reader).temp_type ≡ s.last.type) (sym here)
            (t ∙ type),
        subst (λ (p : Place). (read_at p s.entry s.reader).temp_value ≡ s.last.value) (sym here)
            (v ∙ value),
      )

  -- Any interleaving, of fewer than 2^64 steps, of the calls of a setter with the loads of a getter
  -- of a new entry, whatever the getter's variables held before. If the getter is before its load of
  -- seq2 and that load ends its loop, then no call of the setter is under way, and the type and the
  -- value that the getter has loaded are those of the last call that has ended.
  pub run-whole :
      (steps : List (Step F D)) (garbage : ℕ) (t : DataType) (v : Value F D)
      → length steps < 2 ^ 64
      → (run (begin garbage t v) steps).reader.place ≡ before_seq2
      → (step (run (begin garbage t v) steps) reads).reader.place ≡ left
      → ((run (begin garbage t v) steps).writer ≡ idle)
        × ((step (run (begin garbage t v) steps) reads).reader.temp_type
            ≡ (run (begin garbage t v) steps).last.type)
        × ((step (run (begin garbage t v) steps) reads).reader.temp_value
            ≡ (run (begin garbage t v) steps).last.value)
  unfolding begin new_entry
  run-whole steps garbage t v short =
      checked (run (begin garbage t v) steps)
        (run_from steps (begin garbage t v) (omega arith) (begin-IsSound garbage t v))
