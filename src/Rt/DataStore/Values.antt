-- ===== src/Rt/DataStore/Values.antt =====
-- src/core/rt/RTDataStore.cpp: the setters and getters of the store, called one after the other.
pub mod Latest
use mxrc.Common.{
  ℕ, ◌-◌, Bool, true, false, Option, none, some, List, take, ltb, leb, ◌==◌, ◌||◌, ◌%◌, ◌+◌, ◌^◌,
  not, if◌then◌else◌,
}
use mxrc.Rt.DataStore.{
  DataType, Value, DataEntry, Reader, none_type, int32_type, float_type, double_type, uint64_type,
  string_type, type_index, i32, f32, f64, u64, str, new_entry, count_seq, set_entry, read_loop,
}

-- An entry for each of the 512 keys.
pub record RtDataStore (F D : Type 0) : Type 0 where
  pub entries : ℕ → DataEntry F D

-- What a getter answers: its loop has not ended, -1, or 0 with the value.
pub data Got (A : Type 0) : Type 0 where
  waiting refused : Got A
  got : A → Got A

unfoldable pub is_valid_key : ℕ → Bool
is_valid_key key = ltb key 512

module _ {F D : Type 0} where
  unfoldable pub new : RtDataStore F D
  new = record { entries = λ key. new_entry }

  unfoldable pub change : ℕ → (DataEntry F D → DataEntry F D) → RtDataStore F D → RtDataStore F D
  change key f s = record { entries = λ k. if key == k then f (s.entries k) else s.entries k }

  -- `true` for the answer 0, `false` for -1.
  unfoldable pub set_value : ℕ → DataType → Value F D → ℕ → RtDataStore F D → RtDataStore F D × Bool
  set_value key t v now s =
      if is_valid_key key then (change key (set_entry t v now) s, true) else (s, false)

  unfoldable pub set_int32 : ℕ → ℕ → ℕ → RtDataStore F D → RtDataStore F D × Bool
  set_int32 key x now s = set_value key int32_type (i32 x) now s

  unfoldable pub set_float : ℕ → F → ℕ → RtDataStore F D → RtDataStore F D × Bool
  set_float key x now s = set_value key float_type (f32 x) now s

  unfoldable pub set_double : ℕ → D → ℕ → RtDataStore F D → RtDataStore F D × Bool
  set_double key x now s = set_value key double_type (f64 x) now s

  unfoldable pub set_uint64 : ℕ → ℕ → ℕ → RtDataStore F D → RtDataStore F D × Bool
  set_uint64 key x now s = set_value key uint64_type (u64 x) now s

  -- The pointer, `none` for null, to at least `len` bytes.
  unfoldable pub set_string : ℕ → Option (List ℕ) → ℕ → ℕ → RtDataStore F D → RtDataStore F D × Bool
  set_string key none len now s = (s, false)
  set_string key (some bytes) len now s =
      set_value key string_type (str (take (if ltb len 31 then len else 31) bytes)) now s

  unfoldable pub answer : DataType → Option (Reader F D) → Got (Value F D)
  answer t none = waiting
  answer t (some r) = if type_index r.temp_type == type_index t then got r.temp_value else refused

  -- A getter of one type: the union as it was read, of which the caller gets that type's member.
  unfoldable pub get_value : ℕ → DataType → ℕ → Reader F D → RtDataStore F D → Got (Value F D)
  get_value rounds t key r s =
      if is_valid_key key then answer t (read_loop rounds (s.entries key) r) else refused

  unfoldable pub get_int32 : ℕ → ℕ → Reader F D → RtDataStore F D → Got (Value F D)
  get_int32 rounds key r s = get_value rounds int32_type key r s

  unfoldable pub get_float : ℕ → ℕ → Reader F D → RtDataStore F D → Got (Value F D)
  get_float rounds key r s = get_value rounds float_type key r s

  unfoldable pub get_double : ℕ → ℕ → Reader F D → RtDataStore F D → Got (Value F D)
  get_double rounds key r s = get_value rounds double_type key r s

  unfoldable pub get_uint64 : ℕ → ℕ → Reader F D → RtDataStore F D → Got (Value F D)
  get_uint64 rounds key r s = get_value rounds uint64_type key r s

  -- Into a buffer of a size, which is 0 for a null pointer.
  unfoldable pub shorten : ℕ → Got (Value F D) → Got (Value F D)
  shorten size waiting = waiting
  shorten size refused = refused
  shorten size (got (str bytes)) = got (str (take (if ltb size 32 then size - 1 else 31) bytes))
  shorten size (got v) = got v

  unfoldable pub get_string : ℕ → ℕ → ℕ → Reader F D → RtDataStore F D → Got (Value F D)
  get_string rounds key size r s =
      if size == 0 then refused else shorten size (get_value rounds string_type key r s)

  unfoldable pub increment_seq : ℕ → RtDataStore F D → RtDataStore F D × ℕ
  increment_seq key s =
      if is_valid_key key then (change key count_seq s, (s.entries key).seq) else (s, 0)

  unfoldable pub get_seq : ℕ → RtDataStore F D → ℕ
  get_seq key s = if is_valid_key key then (s.entries key).seq else 0

  unfoldable pub is_fresh : ℕ → ℕ → ℕ → RtDataStore F D → Bool
  is_fresh key max_age now s =
      if not (is_valid_key key)
      then false
      else if type_index (s.entries key).type == type_index none_type
      then false
      else leb ((now + 2 ^ 64 - (s.entries key).timestamp_ns) % 2 ^ 64) max_age

  unfoldable pub get_timestamp : ℕ → RtDataStore F D → ℕ
  get_timestamp key s = if is_valid_key key then (s.entries key).timestamp_ns else 0
