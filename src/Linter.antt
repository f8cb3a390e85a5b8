-- ===== src/Linter.antt =====
-- holonomy-core/src/linter/validator.rs: the data contract, the Arrow schema that it gives, and the
-- check of a record batch against it. The crate regex, serde_json, `str::to_lowercase` and the
-- numbers of type f64 are parameters. A batch is its columns with the names and types of its schema.
pub mod Types
pub mod Rows
pub mod Conform
pub mod Promise
pub mod Compile
pub mod Find
pub mod Contract
mod Tests
use holonomy_source.Common.{
  ℕ, zero, suc, ◌+◌, String, Bool, true, false, not, ◌&&◌, Option, none, some, List, [], ◌∷◌, ◌++◌,
  ltb, member, str_eq, ◌<>◌, if◌then◌else◌,
}
use holonomy_source.Common.Dict.{Dict, get, insert}
use holonomy_source.Common.Result.{Result, ok, err, ok_or, map_err, ◌>>=◌}
use holonomy_source.Auth.{set_insert_all}
use holonomy_source.Arrow.{Arrow, DataType}
use holonomy_source.Linter.Types.{expected_data_type, same_type}

pub data LinterError : Type 0 where
  missing_column extra_column type_mismatch : String → LinterError
  null_violation regex_violation range_violation enum_violation : String → ℕ → LinterError

-- The crate regex, and what the code does with numbers of type f64 and with arrays as such numbers.
pub record Engine (arrow : Arrow) : Type 1 where
  pub Regex : Type 0
  pub new : String → Result String Regex
  pub is_match : Regex → String → Bool
  pub Float : Type 0
  pub lt : Float → Float → Bool
  -- A column of any of the ten numeric types, its values as f64.
  pub as_f64 : arrow.Array → Option (List (Option Float))
  pub null_count : arrow.Array → ℕ

module _ (lower : String → String) (arrow : Arrow) (engine : Engine arrow) where
  open arrow use {Array, len, is_null, as_string}
  open engine use {Regex, new, is_match, Float, lt, as_f64, null_count}

  pub record RangeRule : Type 0 where
    pub min : Option Float
    pub max : Option Float

  pub record ColumnPolicy : Type 0 where
    pub name : String
    pub data_type : String
    pub required : Bool
    pub regex : Option String
    pub range : Option RangeRule
    pub allowed_values : Option (List String)
    pub tags : Option (List String)

  pub record DataContract : Type 0 where
    pub name : String
    pub version : String
    pub columns : List ColumnPolicy

  pub record Validator : Type 0 where
    pub contract : DataContract
    pub compiled_regexes : Dict Regex
    pub allowed_sets : Dict (List String)

  -- A column of a `RecordBatch`, with its field of the schema.
  pub record BatchColumn : Type 0 where
    pub name : String
    pub data_type : DataType
    pub array : Array

  abbrev pub RecordBatch : Type 0
  RecordBatch = List BatchColumn

  -- The regex of a column, if it has one.
  unfoldable pub compile_regex : ColumnPolicy → Dict Regex → Result String (Dict Regex)
  compile_regex col regexes = elim col.regex [
    | none ↦ ok regexes
    | some pattern ↦ do
      re ← map_err (λ e. "Invalid regex for " <> col.name <> ": " <> e) (new pattern)
      ok (insert col.name re regexes)
  ]

  -- `for col in &contract.columns` in `from_json`.
  unfoldable pub compile :
      List ColumnPolicy
      → Dict Regex
      → Dict (List String)
      → Result String (Dict Regex × Dict (List String))
  compile [] regexes allowed = ok (regexes, allowed)
  compile (col ∷ cols) regexes allowed = do
    regexes' ← compile_regex col regexes
    compile cols regexes'
        (elim col.allowed_values [ none ↦ allowed | some av ↦ insert col.name av allowed ])

  -- `Validator::from_json`.
  unfoldable pub from_json :
      (String → Result String DataContract) → String → Result String Validator
  from_json parse json_str = do
    contract ← parse json_str
    (regexes, allowed) ← compile contract.columns [] []
    ok (record { contract = contract; compiled_regexes = regexes; allowed_sets = allowed })

  -- A field of a schema: its name, its type, and whether nulls may stand in it.
  pub record Field : Type 0 where
    pub name : String
    pub data_type : DataType
    pub nullable : Bool

  -- The loop of `to_arrow_schema`.
  unfoldable pub fields_of : List ColumnPolicy → Result String (List Field)
  fields_of [] = ok []
  fields_of (col ∷ cols) = do
    dt ← ok_or (expected_data_type lower col.data_type) ("Unknown type: " <> col.data_type)
    rest ← fields_of cols
    ok (record { name = col.name; data_type = dt; nullable = not col.required } ∷ rest)

  -- `Validator::to_arrow_schema`.
  unfoldable pub to_arrow_schema : Validator → Result String (List Field)
  to_arrow_schema v = fields_of v.contract.columns

  unfoldable pub batch_names : RecordBatch → List String
  batch_names [] = []
  batch_names (c ∷ cs) = c.name ∷ batch_names cs

  unfoldable pub contract_names : List ColumnPolicy → List String
  contract_names [] = []
  contract_names (c ∷ cs) = c.name ∷ contract_names cs

  -- `for col in &batch_cols`: a set meets its elements in some order, here that of the batch.
  unfoldable pub extra_errors : List String → List String → List LinterError
  extra_errors contract_cols [] = []
  extra_errors contract_cols (col ∷ cols) =
      let rest = extra_errors contract_cols cols in
      if member col contract_cols then rest else extra_column col ∷ rest

  -- `schema.index_of(name)` and the column at the index.
  unfoldable pub find_column : String → RecordBatch → Option BatchColumn
  find_column name [] = none
  find_column name (c ∷ cs) = if str_eq c.name name then some c else find_column name cs

  unfoldable pub type_errors : ColumnPolicy → BatchColumn → List LinterError
  type_errors p c = elim (expected_data_type lower p.data_type) [
    | some expected ↦ if same_type c.data_type expected then [] else type_mismatch p.name ∷ []
    | none ↦ type_mismatch p.name ∷ []
  ]

  -- `for i in 0..col.len()`, from a row on.
  unfoldable pub null_rows : String → Array → ℕ → ℕ → List LinterError
  null_rows name array i zero = []
  null_rows name array i (suc n) =
      let rest = null_rows name array (i + 1) n in
      if is_null array i then null_violation name i ∷ rest else rest

  unfoldable pub null_errors : ColumnPolicy → BatchColumn → List LinterError
  null_errors p c =
      if p.required && ltb 0 (null_count c.array)
      then null_rows p.name c.array 0 (len c.array)
      else []

  -- The rows whose value is there and fails a test, from a row on.
  unfoldable pub text_rows :
      (ℕ → LinterError) → (String → Bool) → ℕ → List (Option String) → List LinterError
  text_rows violation test i [] = []
  text_rows violation test i (none ∷ vs) = text_rows violation test (i + 1) vs
  text_rows violation test i (some v ∷ vs) =
      let rest = text_rows violation test (i + 1) vs in if test v then rest else violation i ∷ rest

  -- A rule on the texts of a column, if the column has it.
  unfoldable pub text_errors :
      (ℕ → LinterError) → String → Option (String → Bool) → Array → List LinterError
  text_errors violation name none array = []
  text_errors violation name (some test) array = elim (as_string array) [
    | some vs ↦ text_rows violation test 0 vs
    | none ↦ type_mismatch name ∷ []
  ]

  unfoldable pub below : Option Float → Float → Bool
  below none v = false
  below (some m) v = lt v m

  unfoldable pub above : Option Float → Float → Bool
  above none v = false
  above (some m) v = lt m v

  -- The loop of `check_range!`, from a row on: a value may break both bounds.
  unfoldable pub range_rows : String → RangeRule → ℕ → List (Option Float) → List LinterError
  range_rows name range i [] = []
  range_rows name range i (none ∷ vs) = range_rows name range (i + 1) vs
  range_rows name range i (some v ∷ vs) =
      (if below range.min v then range_violation name i ∷ [] else [])
      ++ (if above range.max v then range_violation name i ∷ [] else [])
      ++ range_rows name range (i + 1) vs

  unfoldable pub range_errors : ColumnPolicy → BatchColumn → List LinterError
  range_errors p c = elim p.range [
    | none ↦ []
    | some range ↦ elim (as_f64 c.array) [
      | some vs ↦ range_rows p.name range 0 vs
      | none ↦ type_mismatch p.name ∷ []
    ]
  ]

  -- `allowed_sets.get(name)` and `compiled_regexes.get(name)`, as tests.
  unfoldable pub allowed_test : Validator → String → Option (String → Bool)
  allowed_test v name = elim (get name v.allowed_sets) [
    | none ↦ none
    | some allowed ↦ some (λ s. member s allowed)
  ]

  unfoldable pub regex_test : Validator → String → Option (String → Bool)
  regex_test v name = elim (get name v.compiled_regexes) [
    | none ↦ none
    | some re ↦ some (is_match re)
  ]

  -- The body of the loop over the columns of the contract, for a column that the batch has.
  unfoldable pub present_errors : Validator → ColumnPolicy → BatchColumn → List LinterError
  present_errors v p c =
      type_errors p c
      ++ null_errors p c
      ++ text_errors (enum_violation p.name) p.name (allowed_test v p.name) c.array
      ++ text_errors (regex_violation p.name) p.name (regex_test v p.name) c.array
      ++ range_errors p c

  unfoldable pub column_errors : Validator → RecordBatch → ColumnPolicy → List LinterError
  column_errors v batch p = elim (find_column p.name batch) [
    | none ↦ if p.required then missing_column p.name ∷ [] else []
    | some c ↦ present_errors v p c
  ]

  unfoldable pub all_column_errors : Validator → RecordBatch → List ColumnPolicy → List LinterError
  all_column_errors v batch [] = []
  all_column_errors v batch (p ∷ ps) = column_errors v batch p ++ all_column_errors v batch ps

  -- `Validator::validate`.
  unfoldable pub validate : Validator → RecordBatch → List LinterError
  validate v batch =
      extra_errors (contract_names v.contract.columns) (set_insert_all (batch_names batch) [])
      ++ all_column_errors v batch v.contract.columns
