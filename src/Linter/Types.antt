-- ===== src/Linter/Types.antt =====
-- holonomy-core/src/linter/validator.rs, `expected_data_type`, and the equality of data types.
use holonomy_source.Common.{
  ℕ, ◌+◌, ◌-◌, String, ◌≡◌, refl, sym, ap, ◌∙◌, ◌↔◌, Bool, true, ◌||◌, Option, none, some, arith,
  ◌==◌, str_eq, if◌then◌else◌,
}
use holonomy_source.Arrow.{
  second, millisecond, microsecond, nanosecond, DataType, null, boolean, utf8, large_utf8, binary,
  large_binary, int8, int16, int32, int64, uint8, uint16, uint32, uint64, float32, float64, date32,
  date64, timestamp, other,
}

-- The match of `expected_data_type` on the name in lower case.
unfoldable pub type_named : String → Option DataType
type_named s =
    if str_eq s "string" || str_eq s "utf8"
    then some utf8
    else if str_eq s "int8"
    then some int8
    else if str_eq s "int16"
    then some int16
    else if str_eq s "int32"
    then some int32
    else if str_eq s "int64"
    then some int64
    else if str_eq s "uint8"
    then some uint8
    else if str_eq s "uint16"
    then some uint16
    else if str_eq s "uint32"
    then some uint32
    else if str_eq s "uint64"
    then some uint64
    else if str_eq s "float32"
    then some float32
    else if str_eq s "float64"
    then some float64
    else if str_eq s "boolean"
    then some boolean
    else if str_eq s "binary"
    then some binary
    else if str_eq s "large_binary"
    then some large_binary
    else if str_eq s "date32"
    then some date32
    else if str_eq s "date64"
    then some date64
    else if str_eq s "timestamp_ms"
    then some (timestamp millisecond)
    else if str_eq s "timestamp_s"
    then some (timestamp second)
    else if str_eq s "timestamp_us"
    then some (timestamp microsecond)
    else if str_eq s "timestamp_ns"
    then some (timestamp nanosecond)
    else none

-- `expected_data_type`.
unfoldable pub expected_data_type : (String → String) → String → Option DataType
expected_data_type lower type_str = type_named (lower type_str)

-- A number for each data type, for the derived equality.
abbrev code : DataType → ℕ
code null = 0
code boolean = 1
code utf8 = 2
code large_utf8 = 3
code binary = 4
code large_binary = 5
code int8 = 6
code int16 = 7
code int32 = 8
code int64 = 9
code uint8 = 10
code uint16 = 11
code uint32 = 12
code uint64 = 13
code float32 = 14
code float64 = 15
code date32 = 16
code date64 = 17
code (timestamp second) = 18
code (timestamp millisecond) = 19
code (timestamp microsecond) = 20
code (timestamp nanosecond) = 21
code (other n) = 22 + n

-- `==` of data types.
unfoldable pub same_type : DataType → DataType → Bool
same_type s t = code s == code t

-- The data type of a number.
abbrev of_code : ℕ → DataType
of_code n =
    if n == 0
    then null
    else if n == 1
    then boolean
    else if n == 2
    then utf8
    else if n == 3
    then large_utf8
    else if n == 4
    then binary
    else if n == 5
    then large_binary
    else if n == 6
    then int8
    else if n == 7
    then int16
    else if n == 8
    then int32
    else if n == 9
    then int64
    else if n == 10
    then uint8
    else if n == 11
    then uint16
    else if n == 12
    then uint32
    else if n == 13
    then uint64
    else if n == 14
    then float32
    else if n == 15
    then float64
    else if n == 16
    then date32
    else if n == 17
    then date64
    else if n == 18
    then timestamp second
    else if n == 19
    then timestamp millisecond
    else if n == 20
    then timestamp microsecond
    else if n == 21
    then timestamp nanosecond
    else other (n - 22)

of_code-code : (t : DataType) → of_code (code t) ≡ t
of_code-code (other n) = ground arith
of_code-code (timestamp second) = refl
of_code-code (timestamp millisecond) = refl
of_code-code (timestamp microsecond) = refl
of_code-code (timestamp nanosecond) = refl
of_code-code t = refl

pub same_type_iff : (s t : DataType) → (same_type s t ≡ true) ↔ (s ≡ t)
unfolding same_type
same_type_iff s t = (
  λ h.
      let e : code s ≡ code t = ground arith in
      sym (of_code-code s) ∙ ap of_code e ∙ of_code-code t,
  λ e. rw e (ground arith),
)
