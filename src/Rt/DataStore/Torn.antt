-- ===== src/Rt/DataStore/Torn.antt =====
-- src/core/rt/RTDataStore.cpp: a getter that meets a setter twice. `continue` goes to the test of the
-- loop, which compares the new, odd seq1 with the seq2 of the round before.
use mxrc.Common.{◌+◌, ◌%◌, ◌^◌, ◌<◌, ◌≡◌, refl, true, false, List, [], ◌∷◌, arith, ◌==◌}
use mxrc.Rt.DataStore.{
  DataEntry, Reader, before_seq1, left, count_seq, put_value, read_at, read_step,
}
use mxrc.Rt.DataStore.Interleaving.{
  Write, idle, valued, Shared, Step, starts, writes, reads, write_step, start_step, step, run,
}

module _ {F D : Type 0} where
  -- The getter loads seq1 and the type; the setter counts and writes its value; the getter loads the
  -- value and seq2, and then seq1 again.
  unfoldable pub meeting : Write F D → List (Step F D)
  meeting w = reads ∷ reads ∷ starts w ∷ writes ∷ reads ∷ reads ∷ reads ∷ []

  -- For every entry that nobody writes, with an even sequence number below 2^64 - 1, every getter
  -- at its beginning and every call of a setter, there is an order of their steps in which the
  -- getter leaves its loop with the old type and the new value, while the call is still under way.
  pub run-torn :
      (e : DataEntry F D) (r : Reader F D) (w last : Write F D)
      → r.place ≡ before_seq1
      → e.seq % 2 ≡ 0
      → e.seq + 1 < 2 ^ 64
      → let s : Shared F D =
          run (record { entry = e; writer = idle; reader = r; last = last }) (meeting w) in
        (s.reader.place ≡ left)
        × (s.reader.temp_type ≡ e.type)
        × (s.reader.temp_value ≡ w.value)
        × (s.writer ≡ valued w)
  unfolding run meeting step read_step read_at start_step write_step count_seq put_value
  run-torn e r w last here even room =
      let odd : (e.seq % 2 == 1) ≡ false = ground (arith, even) in
      let apart : (e.seq == (e.seq + 1) % 2 ^ 64) ≡ false = ground arith in
      let again : ((e.seq + 1) % 2 ^ 64 % 2 == 1) ≡ true = ground (arith, even) in
      let same : ((e.seq + 1) % 2 ^ 64 == (e.seq + 1) % 2 ^ 64) ≡ true = ground arith in
      rw (here, odd, apart, again, same) (refl, refl, refl, refl)
