-- ===== src/Rt/DataStore/Tests.antt =====
-- Small runs of the RT data store: floating-point numbers are stood for by natural numbers.
use mxrc.Common.{ℕ, ◌≡◌, refl, some, List, [], ◌∷◌, arith}
use mxrc.Rt.DataStore.{
  DataEntry, Reader, before_seq1, left, none_type, int32_type, double_type, string_type, i32, f64,
  str, unset, new_entry, count_seq, put_value, put_type, put_time, set_entry, read_at, read_step,
  read_loop,
}
use mxrc.Rt.DataStore.Interleaving
use mxrc.Rt.DataStore.Interleaving.{
  Write, Step, starts, writes, reads, idle, valued, step, write_step, start_step,
}
use mxrc.Rt.DataStore.Reading.{begin, run-whole}
use mxrc.Rt.DataStore.Torn.{meeting, run-torn}
use mxrc.Rt.DataStore.Values.{
  RtDataStore, got, new, set_string, get_string, get_value, set_value, change, is_valid_key, answer,
  shorten,
}
use mxrc.Rt.DataStore.Values.Latest as Latest
use mxrc.Rt.DataStore.Values.Latest.{nothing, latest, given, get_value-latest}

abbrev seven : Write ℕ ℕ
seven = record { type = int32_type; value = i32 7; now = 10 }

abbrev speed : Write ℕ ℕ
speed = record { type = double_type; value = f64 4; now = 12 }

-- A getter that starts before a setter does, and reads behind it in its second round.
abbrev steps : List (Step ℕ ℕ)
steps =
    reads
    ∷ starts seven
    ∷ reads
    ∷ writes
    ∷ writes
    ∷ reads
    ∷ writes
    ∷ writes
    ∷ reads
    ∷ reads
    ∷ reads
    ∷ reads
    ∷ []

run-whole_example :
    let s = Interleaving.run (begin 99 none_type unset) steps in
    (s.writer ≡ idle)
    × ((step s reads).reader.temp_type ≡ s.last.type)
    × ((step s reads).reader.temp_value ≡ s.last.value)
unfolding begin new_entry Interleaving.run step read_step read_at start_step write_step count_seq
    put_value put_type put_time
run-whole_example = run-whole steps 99 none_type unset (omega arith) refl refl

abbrev fresh_reader : Reader ℕ ℕ
fresh_reader = record {
  place = before_seq1;
  seq1 = 3;
  seq2 = 5;
  temp_type = string_type;
  temp_value = unset;
}

abbrev old_entry : DataEntry ℕ ℕ
old_entry = record { value = i32 7; type = int32_type; timestamp_ns = 10; seq = 2 }

run-torn_example :
    let s =
      Interleaving.run
        (record { entry = old_entry; writer = idle; reader = fresh_reader; last = seven })
        (meeting speed) in
    (s.reader.place ≡ left)
    × (s.reader.temp_type ≡ int32_type)
    × (s.reader.temp_value ≡ f64 4)
    × (s.writer ≡ valued speed)
run-torn_example = run-torn old_entry fresh_reader speed seven refl refl (omega arith)

abbrev calls : List (ℕ × Write ℕ ℕ)
calls = (3, seven) ∷ (4, speed) ∷ (3, speed) ∷ (600, seven) ∷ []

get_value-latest_example :
    get_value 4 double_type 3 fresh_reader (Latest.run calls new)
    ≡ given double_type (latest 3 calls nothing)
unfolding is_valid_key
get_value-latest_example = get_value-latest calls double_type 3 0 fresh_reader refl refl

-- A string comes back shortened to the buffer.
string_lem :
    let s : RtDataStore ℕ ℕ = (set_string 5 (some (104 ∷ 105 ∷ 33 ∷ [])) 3 9 new).0 in
    get_string 4 5 3 fresh_reader s ≡ got (str (104 ∷ 105 ∷ []))
unfolding set_string get_string shorten get_value set_value change is_valid_key answer new new_entry
    set_entry count_seq put_value put_type put_time read_loop read_step read_at
string_lem = refl
