-- ===== src/Arrow.antt =====
-- The parts of the crates arrow and parquet that the program calls, as parameters: arrays, their
-- types and the operations on them. `DataType` lists the variants that the source names.
use holonomy_source.Common.{ℕ, String, ◌≡◌, Bool, Option, some, List, length}

pub data TimeUnit : Type 0 where
  second millisecond microsecond nanosecond : TimeUnit

pub data DataType : Type 0 where
  null boolean utf8 large_utf8 binary large_binary : DataType
  int8 int16 int32 int64 uint8 uint16 uint32 uint64 float32 float64 : DataType
  date32 date64 : DataType
  timestamp : TimeUnit → DataType
  -- A variant that the source does not name.
  other : ℕ → DataType

-- `Array` with the downcasts to text arrays, their builders, and `new_null_array`.
pub record Arrow : Type 1 where
  pub Array : Type 0
  pub data_type : Array → DataType
  pub len : Array → ℕ
  pub is_null : Array → ℕ → Bool
  pub as_string : Array → Option (List (Option String))
  pub as_large_string : Array → Option (List (Option String))
  pub string_array : List (Option String) → Array
  pub large_string_array : List (Option String) → Array
  pub null_array : DataType → ℕ → Array

-- What the program relies on: a downcast gives every row, an array that is built has its rows, and
-- a null array has the given type and length.
pub record ArrowLaws (a : Arrow) : Type 0 where
  pub len-as_string :
      (x : a.Array) (vs : List (Option String)) → a.as_string x ≡ some vs → length vs ≡ a.len x
  pub len-as_large_string :
      (x : a.Array) (vs : List (Option String))
      → a.as_large_string x ≡ some vs
      → length vs ≡ a.len x
  pub len-string_array : (vs : List (Option String)) → a.len (a.string_array vs) ≡ length vs
  pub len-large_string_array :
      (vs : List (Option String)) → a.len (a.large_string_array vs) ≡ length vs
  pub len-null_array : (t : DataType) (n : ℕ) → a.len (a.null_array t n) ≡ n
