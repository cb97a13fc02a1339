-- ===== src/Rt/DataStore/Values/Latest.antt =====
-- What a getter answers after calls of setters.
use mxrc.Common.{
  ℕ, zero, suc, ◌%◌, ◌≡◌, refl, ap, ◌∙◌, inl, inr, true, false, some, List, [], ◌∷◌, arith, ◌==◌,
  if◌then◌else◌, Bool-cases,
}
use mxrc.Rt.DataStore.{
  DataType, Value, DataEntry, Reader, before_seq1, left, none_type, unset, type_index, new_entry,
  count_seq, put_value, put_type, put_time, set_entry, read_at, read_step, read_loop,
}
use mxrc.Rt.DataStore.Interleaving.{Write}
use mxrc.Rt.DataStore.Values.{
  RtDataStore, Got, got, refused, new, change, is_valid_key, set_value, get_value, answer,
}

module _ {F D : Type 0} where
  -- Calls of setters, with their keys.
  unfoldable pub run : List (ℕ × Write F D) → RtDataStore F D → RtDataStore F D
  run [] s = s
  run ((key, w) ∷ rest) s = run rest (set_value key w.type w.value w.now s).0

  -- The specification: the last write to a key, and what a getter of a type makes of it.
  unfoldable pub latest : ℕ → List (ℕ × Write F D) → Write F D → Write F D
  latest key [] w = w
  latest key ((k, v) ∷ rest) w = latest key rest (if k == key then v else w)

  abbrev pub nothing : Write F D
  nothing = record { type = none_type; value = unset; now = 0 }

  unfoldable pub given : DataType → Write F D → Got (Value F D)
  given t w = if type_index w.type == type_index t then got w.value else refused

  -- The entry at rest, with what was written.
  record IsAtRest (w : Write F D) (e : DataEntry F D) : Type 0 where
    even : e.seq % 2 ≡ 0
    type : e.type ≡ w.type
    value : e.value ≡ w.value

  set_entry-IsAtRest :
      (w v : Write F D) (e : DataEntry F D)
      → IsAtRest w e
      → IsAtRest v (set_entry v.type v.value v.now e)
  unfolding set_entry count_seq put_value put_type put_time
  set_entry-IsAtRest w v e h = record { even = omega (arith, h.even); type = refl; value = refl }

  set_value-IsAtRest :
      (key k : ℕ) (w v : Write F D) (s : RtDataStore F D)
      → is_valid_key key ≡ true
      → IsAtRest w (s.entries key)
      → IsAtRest (if k == key then v else w) ((set_value k v.type v.value v.now s).0.entries key)
  unfolding set_value change
  set_value-IsAtRest key k w v s valid h = elim (Bool-cases (k == key)) [
    | inl same ↦
        let named : k ≡ key = ground (arith, same) in
        let here = ap is_valid_key named ∙ valid in
        rw (set_value, here, same) (set_entry-IsAtRest w v (s.entries key) h)
    | inr other ↦ elim (Bool-cases (is_valid_key k)) [
      | inl there ↦ rw (set_value, there, other) h
      | inr nowhere ↦ rw (set_value, nowhere, other) h
    ]
  ]

  read_loop-left :
      (rounds : ℕ) (e : DataEntry F D) (r : Reader F D)
      → r.place ≡ left
      → read_loop rounds e r ≡ some r
  unfolding read_loop
  read_loop-left zero e r h = rw h refl
  read_loop-left (suc rounds) e r h = rw h refl

  read_loop-rest :
      (w : Write F D) (e : DataEntry F D) (r : Reader F D) (rounds : ℕ)
      → r.place ≡ before_seq1
      → IsAtRest w e
      → (over : Reader F D) × (read_loop (suc (suc (suc (suc rounds)))) e r ≡ some over)
        × (over.temp_type ≡ w.type)
        × (over.temp_value ≡ w.value)
  unfolding read_loop read_step read_at
  read_loop-rest w e r rounds here h =
      let odd : (e.seq % 2 == 1) ≡ false = ground (arith, h.even) in
      let same : (e.seq == e.seq) ≡ true = ground arith in
      let over : Reader F D = record {
        place = left;
        seq1 = e.seq;
        seq2 = e.seq;
        temp_type = e.type;
        temp_value = e.value;
      } in
      (over, rw (here, odd, same) (read_loop-left rounds e over refl), h.type, h.value)

  get_value-given :
      (t : DataType) (key rounds : ℕ) (w : Write F D) (r : Reader F D) (s : RtDataStore F D)
      → is_valid_key key ≡ true
      → r.place ≡ before_seq1
      → IsAtRest w (s.entries key)
      → get_value (suc (suc (suc (suc rounds)))) t key r s ≡ given t w
  unfolding get_value given answer
  get_value-given t key rounds w r s valid here h =
      let (over, ends, type, value) = read_loop-rest w (s.entries key) r rounds here h in
      rw (valid, ends, answer, type, value) refl

  run_from :
      (key : ℕ) (writes : List (ℕ × Write F D)) (w : Write F D) (s : RtDataStore F D)
      → is_valid_key key ≡ true
      → IsAtRest w (s.entries key)
      → IsAtRest (latest key writes w) ((run writes s).entries key)
  unfolding run latest
  run_from key [] w s valid h = h
  run_from key ((k, v) ∷ rest) w s valid h =
      run_from key rest (if k == key then v else w) (set_value k v.type v.value v.now s).0 valid
        (set_value-IsAtRest key k w v s valid h)

  new-IsAtRest : (key : ℕ) → IsAtRest nothing ((new {F = F} {D = D}).entries key)
  unfolding new new_entry
  new-IsAtRest key = record { even = omega arith; type = refl; value = refl }

  -- After any calls of setters, one after the other, on a new store: the getter of any type, for a
  -- valid key, on variables that are not initialized, ends, given four rounds or more, and answers with the
  -- last value set for the key if that was set with the getter's type, and with -1 otherwise. This is
  -- before getString shortens the value to the caller's buffer.
  pub get_value-latest :
      (writes : List (ℕ × Write F D)) (t : DataType) (key rounds : ℕ) (r : Reader F D)
      → is_valid_key key ≡ true
      → r.place ≡ before_seq1
      → get_value (suc (suc (suc (suc rounds)))) t key r (run writes new)
        ≡ given t (latest key writes nothing)
  get_value-latest writes t key rounds r valid here =
      get_value-given t key rounds (latest key writes nothing) r (run writes new) valid here
        (run_from key writes nothing new valid (new-IsAtRest key))
