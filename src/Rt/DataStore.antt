-- ===== src/Rt/DataStore.antt =====
-- src/core/rt/RTDataStore.{h,cpp}: the entries that the RT process shares, each behind a sequence
-- lock. `F` and `D` are the single and double precision numbers; an integer is its bit pattern, a
-- string its bytes up to the terminator. Memory is sequentially consistent.
pub mod Reading
pub mod Interleaving
pub mod Torn
pub mod Values
pub mod Tests
use mxrc.Common.{
  ℕ, zero, suc, ◌+◌, ◌-◌, ◌%◌, ◌^◌, Bool, true, false, Option, none, some, List, [], ◌∷◌, ltb, leb,
  ◌==◌, ◌&&◌, not, if◌then◌else◌,
}

pub data DataType : Type 0 where
  none_type int32_type float_type double_type uint64_type string_type : DataType

abbrev pub type_index : DataType → ℕ
type_index none_type = 0
type_index int32_type = 1
type_index float_type = 2
type_index double_type = 3
type_index uint64_type = 4
type_index string_type = 5

-- The union, by the member that was written last.
pub data Value (F D : Type 0) : Type 0 where
  unset : Value F D
  i32 u64 : ℕ → Value F D
  f32 : F → Value F D
  f64 : D → Value F D
  str : List ℕ → Value F D

pub record DataEntry (F D : Type 0) : Type 0 where
  pub value : Value F D
  pub type : DataType
  pub timestamp_ns : ℕ
  pub seq : ℕ

-- Where the loop of a getter stands: before the load of seq1, of the type, of the value, of seq2, or
-- behind the loop.
pub data Place : Type 0 where
  before_seq1 before_type before_value before_seq2 left : Place

abbrev is_left : Place → Bool
is_left before_seq1 = false
is_left before_type = false
is_left before_value = false
is_left before_seq2 = false
is_left left = true

-- The local variables of a getter. The source does not initialize them.
pub record Reader (F D : Type 0) : Type 0 where
  pub place : Place
  pub seq1 : ℕ
  pub seq2 : ℕ
  pub temp_type : DataType
  pub temp_value : Value F D

module _ {F D : Type 0} where
  unfoldable pub new_entry : DataEntry F D
  new_entry = record { value = unset; type = none_type; timestamp_ns = 0; seq = 0 }

  -- The five writes of a setter: the sequence number, the value, the type, the time, and the
  -- sequence number again.
  unfoldable pub count_seq : DataEntry F D → DataEntry F D
  count_seq e = record e { seq = (e.seq + 1) % 2 ^ 64 }

  unfoldable pub put_value : Value F D → DataEntry F D → DataEntry F D
  put_value v e = record e { value = v }

  unfoldable pub put_type : DataType → DataEntry F D → DataEntry F D
  put_type t e = record e { type = t }

  unfoldable pub put_time : ℕ → DataEntry F D → DataEntry F D
  put_time now e = record e { timestamp_ns = now }

  unfoldable pub set_entry : DataType → Value F D → ℕ → DataEntry F D → DataEntry F D
  set_entry t v now e = count_seq (put_time now (put_type t (put_value v (count_seq e))))

  -- One load of a getter and the test behind it. On an odd number `continue` goes to the test
  -- of the loop, with the seq2 of the round before.
  unfoldable pub read_at : Place → DataEntry F D → Reader F D → Reader F D
  read_at before_seq1 e r = record r {
    seq1 = e.seq;
    place = if e.seq % 2 == 1 then (if e.seq == r.seq2 then left else before_seq1) else before_type;
  }
  read_at before_type e r = record r { temp_type = e.type; place = before_value }
  read_at before_value e r = record r { temp_value = e.value; place = before_seq2 }
  read_at before_seq2 e r = record r {
    seq2 = e.seq;
    place = if r.seq1 == e.seq then left else before_seq1;
  }
  read_at left e r = r

  unfoldable pub read_step : DataEntry F D → Reader F D → Reader F D
  read_step e r = read_at r.place e r

  -- The loop with nobody writing, on fuel: `none` while it has not ended.
  unfoldable pub read_loop : ℕ → DataEntry F D → Reader F D → Option (Reader F D)
  read_loop zero e r = if is_left r.place then some r else none
  read_loop (suc rounds) e r =
      let rest = read_loop rounds e (read_step e r) in if is_left r.place then some r else rest
