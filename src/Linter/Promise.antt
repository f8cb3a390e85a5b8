-- ===== src/Linter/Promise.antt =====
-- holonomy-core/src/linter/validator.rs: what a batch that keeps to a data contract is, without the
-- validator and its maps.
use holonomy_source.Common.{
  ℕ, ◌<◌, String, ◌≡◌, ◌⊎◌, true, false, Option, none, some, List, [], ◌∷◌, ◌++◌, map, Has, All,
  str_eq, member, if◌then◌else◌,
}
use holonomy_source.Common.Result.{ok}
use holonomy_source.Arrow.{
  Arrow, second, millisecond, microsecond, nanosecond, DataType, boolean, utf8, binary,
  large_binary, int8, int16, int32, int64, uint8, uint16, uint32, uint64, float32, float64, date32,
  date64, timestamp,
}
use holonomy_source.Linter
use holonomy_source.Linter.{Engine}
use holonomy_source.Linter.Rows.{AllPass, RangeKept}

-- The names of the types of a contract.
abbrev pub type_names : List (String × DataType)
type_names =
    ("string", utf8)
    ∷ ("utf8", utf8)
    ∷ ("int8", int8)
    ∷ ("int16", int16)
    ∷ ("int32", int32)
    ∷ ("int64", int64)
    ∷ ("uint8", uint8)
    ∷ ("uint16", uint16)
    ∷ ("uint32", uint32)
    ∷ ("uint64", uint64)
    ∷ ("float32", float32)
    ∷ ("float64", float64)
    ∷ ("boolean", boolean)
    ∷ ("binary", binary)
    ∷ ("large_binary", large_binary)
    ∷ ("date32", date32)
    ∷ ("date64", date64)
    ∷ ("timestamp_ms", timestamp millisecond)
    ∷ ("timestamp_s", timestamp second)
    ∷ ("timestamp_us", timestamp microsecond)
    ∷ ("timestamp_ns", timestamp nanosecond)
    ∷ []

abbrev pub type_of : String → List (String × DataType) → Option DataType
type_of s [] = none
type_of s ((name, t) ∷ types) = if str_eq s name then some t else type_of s types

module _ (lower : String → String) (arrow : Arrow) (engine : Engine arrow) where
  open arrow use {Array, len, is_null, as_string}
  open engine use {Regex, new, is_match, as_f64}

  abbrev Policy : Type 0
  Policy = Linter.ColumnPolicy lower arrow engine

  abbrev Column : Type 0
  Column = Linter.BatchColumn lower arrow engine

  abbrev pub policy_names : List Policy → List String
  policy_names = map (λ (p : Policy). p.name)

  abbrev pub column_names : List Column → List String
  column_names = map (λ (c : Column). c.name)

  -- No two columns of a contract have one name.
  abbrev pub DistinctNames : List Policy → Type 0
  DistinctNames [] = Unit
  DistinctNames (p ∷ ps) = (¬ (Has p.name (policy_names ps))) × DistinctNames ps

  -- The texts of a column are all among the allowed values, if there is such a list.
  abbrev pub KeepsAllowed : Option (List String) → Option (List (Option String)) → Type 0
  KeepsAllowed none texts = Unit
  KeepsAllowed (some values) texts = AllPass (λ s. member s values) texts

  -- The texts of a column all match the pattern, if there is one.
  abbrev pub KeepsPattern : Option String → Option (List (Option String)) → Type 0
  KeepsPattern none texts = Unit
  KeepsPattern (some pattern) texts =
      (re : Regex) × (new pattern ≡ ok re) × AllPass (is_match re) texts

  pub record KeepsPolicy (p : Policy) (c : Column) : Type 0 where
    pub typed : type_of (lower p.data_type) type_names ≡ some c.data_type
    pub not_null : p.required ≡ true → (k : ℕ) → k < len c.array → is_null c.array k ≡ false
    pub allowed : KeepsAllowed p.allowed_values (as_string c.array)
    pub matching : KeepsPattern p.regex (as_string c.array)
    pub ranged : RangeKept lower arrow engine p.range (as_f64 c.array)

  -- The first column of a name.
  abbrev pub IsFirstColumn : String → List Column → Column → Type 0
  IsFirstColumn name batch c =
      (before : List Column) × (after : List Column) × (batch ≡ before ++ c ∷ after)
      × (c.name ≡ name)
      × ¬ (Has name (column_names before))

  -- The first column of the name keeps to the policy, or there is none and it is not required.
  abbrev pub IsKept : List Column → Policy → Type 0
  IsKept batch p =
      ((¬ (Has p.name (column_names batch))) × (p.required ≡ false))
      ⊎ ((c : Column) × IsFirstColumn p.name batch c × KeepsPolicy p c)

  pub record KeepsContract (contract : Linter.DataContract lower arrow engine) (batch : List Column)
      : Type 0 where
    pub documented :
        (s : String) → Has s (column_names batch) → Has s (policy_names contract.columns)
    pub kept : All (IsKept batch) contract.columns
