-- ===== src/Filter.antt =====
-- holonomy-core/src/governance/simd_ops.rs, `GovernanceEngine::evaluate_filter`: the test of a row
-- filter on the values of a column. The comparison kernels of arrow and the date parser of chrono are
-- parameters.
pub mod Rows
pub mod Samples
mod Tests
use holonomy_source.Common.{
  ℕ, zero, suc, ◌+◌, ◌-◌, ◌*◌, ◌/◌, ◌%◌, ◌^◌, String, Bool, true, false, Option, none, some, List,
  [], ◌∷◌, ltb, ◌<>◌, if◌then◌else◌,
}
use holonomy_source.Common.Int.{ℤ, pos, negsuc}
use holonomy_source.Common.Result.{Result, ok, err, map_err, ◌>>=◌}
use holonomy_source.Predicate.{PredicateValue, int64, string, Predicate, eq, neq, gt, lt}
use holonomy_source.Arrow
use holonomy_source.Arrow.{
  Arrow, DataType, TimeUnit, second, millisecond, microsecond, nanosecond, date32, date64,
  timestamp,
}
use holonomy_source.Linter.Types.{same_type}

pub data FilterError : Type 0 where
  filter_error : String → FilterError

-- Arrays of integers, and `arrow::compute::kernels::cmp`.
pub record Kernels (arrow : Arrow) : Type 0 where
  pub int32_array : List ℤ → arrow.Array
  pub int64_array : List ℤ → arrow.Array
  pub date32_array : List ℤ → arrow.Array
  pub date64_array : List ℤ → arrow.Array
  pub timestamp_array : TimeUnit → List ℤ → arrow.Array
  pub cmp_eq : arrow.Array → arrow.Array → Result String (List (Option Bool))
  pub cmp_neq : arrow.Array → arrow.Array → Result String (List (Option Bool))
  pub cmp_gt : arrow.Array → arrow.Array → Result String (List (Option Bool))
  pub cmp_lt : arrow.Array → arrow.Array → Result String (List (Option Bool))

-- The parsers of chrono: days, and milliseconds, since the epoch.
pub record Chrono : Type 0 where
  pub ymd_days : String → Option ℤ
  pub dmy_days : String → Option ℤ
  pub rfc3339_days : String → Option ℤ
  pub rfc3339_millis : String → Option ℤ
  pub dmy_time_millis : String → Option ℤ

-- The residue of an integer modulo `2 ^ w`.
unfoldable pub residue : ℕ → ℤ → ℕ
residue w (pos n) = n % 2 ^ w
residue w (negsuc n) = 2 ^ w - 1 - n % 2 ^ w

-- `v as i32` for a `w` of 32: the number of `w` bits, signed.
unfoldable pub wrap : ℕ → ℤ → ℤ
wrap w v = let r = residue w v in if ltb r (2 ^ (w - 1)) then pos r else negsuc (2 ^ w - 1 - r)

-- A multiple of an integer, with the wrap-around of an `i64`.
unfoldable pub times : ℕ → ℤ → ℤ
times k (pos n) = wrap 64 (pos (k * n))
times k (negsuc n) = if ltb 0 k then wrap 64 (negsuc (k * (n + 1) - 1)) else pos 0

-- `millis / 1000`, towards zero.
unfoldable pub thousandth : ℤ → ℤ
thousandth (pos n) = pos (n / 1000)
thousandth (negsuc n) = if ltb 0 ((n + 1) / 1000) then negsuc ((n + 1) / 1000 - 1) else pos 0

-- `vec![v; n]`.
unfoldable pub repeat : {V : Type 0} → V → ℕ → List V
repeat v zero = []
repeat v (suc n) = v ∷ repeat v n

-- `parse_date_string_to_epoch_days`.
unfoldable pub parse_date_string_to_epoch_days : Chrono → String → Option ℤ
parse_date_string_to_epoch_days chrono s = elim (chrono.ymd_days s) [
  | some days ↦ some (wrap 32 days)
  | none ↦ elim (chrono.dmy_days s) [
    | some days ↦ some (wrap 32 days)
    | none ↦ elim (chrono.rfc3339_days s) [ some days ↦ some (wrap 32 days) | none ↦ none ]
  ]
]

-- `parse_date_string_to_timestamp_millis`.
unfoldable pub parse_date_string_to_timestamp_millis : Chrono → String → Option ℤ
parse_date_string_to_timestamp_millis chrono s = elim (chrono.rfc3339_millis s) [
  | some millis ↦ some millis
  | none ↦ elim (chrono.dmy_time_millis s) [
    | some millis ↦ some millis
    | none ↦ elim (chrono.ymd_days s) [
      | some days ↦ some (times 86400000 days)
      | none ↦ elim (chrono.dmy_days s) [ some days ↦ some (times 86400000 days) | none ↦ none ]
    ]
  ]
]

-- `PredicateValue` of a predicate.
unfoldable pub operand : Predicate → PredicateValue
operand (eq c v) = v
operand (neq c v) = v
operand (gt c v) = v
operand (lt c v) = v

module _ (arrow : Arrow) (kernels : Kernels arrow) (chrono : Chrono) where
  open arrow use {Array, data_type, len, string_array}
  open kernels use {
    int32_array, int64_array, date32_array, date64_array, timestamp_array, cmp_eq, cmp_neq, cmp_gt,
    cmp_lt,
  }

  -- The match on the unit of a timestamp.
  unfoldable pub timestamp_scalar : TimeUnit → ℤ → ℕ → Array
  timestamp_scalar millisecond millis n = timestamp_array millisecond (repeat millis n)
  timestamp_scalar microsecond millis n = timestamp_array microsecond (repeat (times 1000 millis) n)
  timestamp_scalar nanosecond millis n =
      timestamp_array nanosecond (repeat (times 1000000 millis) n)
  timestamp_scalar second millis n = timestamp_array second (repeat (thousandth millis) n)

  unfoldable pub or_parse_error : {V : Type 0} → String → String → Option V → Result String V
  or_parse_error s type none = err ("Could not parse '" <> s <> "' as " <> type)
  or_parse_error s type (some v) = ok v

  -- `build_scalar_string_array`.
  unfoldable pub build_scalar_string_array : String → DataType → ℕ → Result String Array
  build_scalar_string_array s date32 n = do
    days ← or_parse_error s "Date32" (parse_date_string_to_epoch_days chrono s)
    ok (date32_array (repeat days n))
  build_scalar_string_array s date64 n = do
    millis ← or_parse_error s "Date64" (parse_date_string_to_timestamp_millis chrono s)
    ok (date64_array (repeat millis n))
  build_scalar_string_array s (timestamp unit) n = do
    millis ← or_parse_error s "Timestamp" (parse_date_string_to_timestamp_millis chrono s)
    ok (timestamp_scalar unit millis n)
  build_scalar_string_array s type n = ok (string_array (repeat (some s) n))

  -- The array that a column is compared with: a number is narrowed for the types of 32 bits.
  unfoldable pub scalar_array : PredicateValue → Array → Result String Array
  scalar_array (string s) array = build_scalar_string_array s (data_type array) (len array)
  scalar_array (int64 v) array =
      if same_type (data_type array) Arrow.int32
      then ok (int32_array (repeat (wrap 32 v) (len array)))
      else if same_type (data_type array) date32
      then ok (date32_array (repeat (wrap 32 v) (len array)))
      else ok (int64_array (repeat v (len array)))

  -- The kernel of a predicate.
  unfoldable pub compare : Predicate → Array → Array → Result String (List (Option Bool))
  compare (eq c v) = cmp_eq
  compare (neq c v) = cmp_neq
  compare (gt c v) = cmp_gt
  compare (lt c v) = cmp_lt

  -- `GovernanceEngine::evaluate_filter`.
  unfoldable pub evaluate_filter : Array → Predicate → Result FilterError (List (Option Bool))
  evaluate_filter array predicate = do
    scalar ← map_err filter_error (scalar_array (operand predicate) array)
    map_err filter_error (compare predicate array scalar)
