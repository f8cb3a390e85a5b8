-- ===== src/Linter/Tests.antt =====
-- The check of a batch with one column of texts and one of numbers against a small contract.
use holonomy_source.Common.{
  ℕ, zero, suc, ◌<◌, String, ◌≡◌, refl, ◌↔◌, Bool, true, false, Option, none, some, List, [], ◌∷◌,
  arith, length, ltb, str_eq, inl, inr, eq_iff,
}
use holonomy_source.Common.Dict.{get, insert}
use holonomy_source.Common.Result.{Result, ok}
use holonomy_source.Auth.{set_insert, set_insert_all}
use holonomy_source.Linter.Types.{expected_data_type, type_named, same_type}
use holonomy_source.Arrow.{DataType, utf8, int64, Arrow}
use holonomy_source.Linter
use holonomy_source.Linter.{Engine, LinterError, enum_violation, extra_column}
use holonomy_source.Linter.Rows.{EngineLaws}
use holonomy_source.Linter.Promise.{DistinctNames, KeepsContract}
use holonomy_source.Linter.Contract.{validate-from_json}

data Column : Type 0 where
  texts : List (Option String) → Column
  numbers : List (Option ℕ) → Column

abbrev nulls_of : {V : Type 0} → List (Option V) → ℕ
nulls_of [] = 0
nulls_of (none ∷ vs) = suc (nulls_of vs)
nulls_of (some v ∷ vs) = nulls_of vs

abbrev null_at : {V : Type 0} → List (Option V) → ℕ → Bool
null_at [] i = false
null_at (none ∷ vs) zero = true
null_at (some v ∷ vs) zero = false
null_at (v ∷ vs) (suc i) = null_at vs i

nulls_of-zero : {V : Type 0} (vs : List (Option V)) (i : ℕ) → nulls_of vs ≡ 0 → null_at vs i ≡ false
nulls_of-zero [] i h = refl
nulls_of-zero (none ∷ vs) i h = absurd (omega (arith, h))
nulls_of-zero (some v ∷ vs) zero h = refl
nulls_of-zero (some v ∷ vs) (suc i) h = nulls_of-zero vs i h

abbrev column_type : Column → DataType
column_type (texts vs) = utf8
column_type (numbers vs) = int64

abbrev column_len : Column → ℕ
column_len (texts vs) = length vs
column_len (numbers vs) = length vs

abbrev column_null : Column → ℕ → Bool
column_null (texts vs) i = null_at vs i
column_null (numbers vs) i = null_at vs i

abbrev column_nulls : Column → ℕ
column_nulls (texts vs) = nulls_of vs
column_nulls (numbers vs) = nulls_of vs

abbrev column_texts : Column → Option (List (Option String))
column_texts (texts vs) = some vs
column_texts (numbers vs) = none

abbrev column_numbers : Column → Option (List (Option ℕ))
column_numbers (texts vs) = none
column_numbers (numbers vs) = some vs

abbrev arrow : Arrow
arrow = record {
  Array = Column;
  data_type = column_type;
  len = column_len;
  is_null = column_null;
  as_string = column_texts;
  as_large_string = λ x. none;
  string_array = texts;
  large_string_array = texts;
  null_array = λ t n. texts [];
}

-- A pattern matches its own text; numbers are natural.
abbrev engine : Engine arrow
engine = record {
  Regex = String;
  new = λ s. ok s;
  is_match = str_eq;
  Float = ℕ;
  lt = ltb;
  as_f64 = column_numbers;
  null_count = column_nulls;
}

abbrev keep_case : String → String
keep_case s = s

column_nulls-zero :
    (x : Column) (i : ℕ) → column_nulls x ≡ 0 → i < column_len x → column_null x i ≡ false
column_nulls-zero (texts vs) i h b = nulls_of-zero vs i h
column_nulls-zero (numbers vs) i h b = nulls_of-zero vs i h

engine_laws : EngineLaws keep_case arrow engine
engine_laws = record { null_count_zero = column_nulls-zero }

abbrev age_policy : Linter.ColumnPolicy keep_case arrow engine
age_policy = record {
  name = "age";
  data_type = "int64";
  required = true;
  regex = none;
  range = some (record { min = some 18; max = some 65 });
  allowed_values = none;
  tags = none;
}

abbrev dept_policy : Linter.ColumnPolicy keep_case arrow engine
dept_policy = record {
  name = "dept";
  data_type = "string";
  required = false;
  regex = none;
  range = none;
  allowed_values = some ("HR" ∷ []);
  tags = none;
}

abbrev validator : Linter.Validator keep_case arrow engine
validator = record {
  contract = record { name = "staff"; version = "1.0"; columns = age_policy ∷ dept_policy ∷ [] };
  compiled_regexes = [];
  allowed_sets = ("dept", "HR" ∷ []) ∷ [];
}

abbrev batch_of : List (Option ℕ) → List (Option String) → Linter.RecordBatch keep_case arrow engine
batch_of ages depts =
    record { name = "age"; data_type = int64; array = numbers ages }
    ∷ record { name = "dept"; data_type = utf8; array = texts depts }
    ∷ []

-- A contract with a pattern and a list of allowed values, as it is parsed.
abbrev staff : Linter.DataContract keep_case arrow engine
staff = record {
  name = "staff";
  version = "1.0";
  columns = age_policy ∷ record dept_policy { regex = some "HR" } ∷ [];
}

abbrev staff_validator : Linter.Validator keep_case arrow engine
staff_validator = record {
  contract = staff;
  compiled_regexes = ("dept", "HR") ∷ [];
  allowed_sets = ("dept", "HR" ∷ []) ∷ [];
}

parsed_staff :
    Linter.from_json keep_case arrow engine (λ text. ok staff) "staff.json" ≡ ok staff_validator
unfolding Linter.from_json Linter.compile Linter.compile_regex insert
parsed_staff = refl

staff-DistinctNames : DistinctNames keep_case arrow engine staff.columns
staff-DistinctNames = (
  λ x. elim x [ inl e ↦ ground (arith, (eq_iff "dept" "age").1 e) | inr later ↦ later ],
  (λ x. x, tt),
)

validate-from_json_example :
    (◌≡◌ {A = Result String (Linter.DataContract keep_case arrow engine)} (ok staff) (ok staff))
    × ((Linter.validate keep_case arrow engine staff_validator
            (batch_of (some 20 ∷ []) (some "HR" ∷ []))
          ≡ [])
        ↔ KeepsContract keep_case arrow engine staff (batch_of (some 20 ∷ []) (some "HR" ∷ [])))
validate-from_json_example =
    validate-from_json keep_case arrow engine engine_laws (λ text. ok staff) "staff.json"
      staff_validator (batch_of (some 20 ∷ []) (some "HR" ∷ [])) parsed_staff staff-DistinctNames

bad_batch :
    Linter.validate keep_case arrow engine validator (batch_of (some 20 ∷ []) (some "IT" ∷ []))
    ≡ enum_violation "dept" 0 ∷ []
unfolding Linter.validate Linter.extra_errors set_insert_all Linter.batch_names set_insert
    Linter.contract_names Linter.all_column_errors Linter.column_errors Linter.find_column
    Linter.present_errors Linter.type_errors expected_data_type type_named same_type
    Linter.null_errors Linter.text_errors Linter.allowed_test get Linter.above Linter.below
    Linter.null_rows Linter.range_errors Linter.range_rows Linter.regex_test Linter.text_rows
bad_batch = refl
