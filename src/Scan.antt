-- ===== src/Scan.antt =====
-- holonomy-core/src/manager/scan_orchestrator.rs: what the task of `ScanOrchestrator::scan` sends for the
-- batches of the files. Its messages are a list: a reader that goes away gets a prefix of it.
pub mod Columns
pub mod Files
pub mod Orchestrator
pub mod Messages
pub mod Account
mod Tests
use holonomy_source.Common.{
  String, Bool, true, false, ◌&&◌, Option, none, some, List, [], ◌∷◌, ◌++◌, member, str_eq, ◌<>◌,
  if◌then◌else◌,
}
use holonomy_source.Common.Dict
use holonomy_source.Common.Dict.{Dict}
use holonomy_source.Common.Result.{Result, ok, err, and_then, map_err}
use holonomy_source.Arrow.{Arrow, DataType}
use holonomy_source.Arrow
use holonomy_source.Auth.{UserContext}
use holonomy_source.Policy.{PolicyManifest}
use holonomy_source.Governance.{
  GovernanceError, access_denied, data_leak_prevented, FailClosedMode, apply_rls,
}
use holonomy_source.Predicate.{Predicate}
use holonomy_source.Filter.{Kernels, Chrono}
use holonomy_source.Read.{FilterFailure, missing_column, not_evaluated, not_filtered}
use holonomy_source.Read.Batches.{Compute, num_rows, filter_batch}

-- `ArrowError`, as far as the code makes it; one of the stream or of arrow is its text.
pub data ArrowError : Type 0 where
  external_error compute_error invalid_argument_error other_error : String → ArrowError

-- The errors that are sent for a batch that cannot be filtered.
unfoldable pub filter_message : FilterFailure → ArrowError
filter_message (missing_column col) =
    invalid_argument_error ("Access Denied: Row filter references missing column '" <> (col <> "'"))
filter_message (not_evaluated e) = compute_error e
filter_message (not_filtered e) = compute_error e

-- `e.to_string()` of an error of `apply_rls`.
unfoldable pub show_governance_error : GovernanceError → String
show_governance_error (access_denied e) = "Access Denied: " <> e
show_governance_error (data_leak_prevented e) = "Data Leak Prevented: " <> e

-- A field of a schema.
pub record Field : Type 0 where
  pub name : String
  pub data_type : DataType
  pub nullable : Bool

unfoldable pub schema_field : String → List Field → Option Field
schema_field name [] = none
schema_field name (f ∷ fs) = if str_eq f.name name then some f else schema_field name fs

-- `projected_cols != requested_cols`, negated.
unfoldable pub same_names : List String → List String → Bool
same_names [] [] = true
same_names [] (t ∷ ts) = false
same_names (s ∷ ss) [] = false
same_names (s ∷ ss) (t ∷ ts) = str_eq s t && same_names ss ts

-- The type of the nulls for a column that a file does not have.
unfoldable pub missing_type : Option (List Field) → String → DataType
missing_type none name = Arrow.null
missing_type (some us) name = elim (schema_field name us) [
  | none ↦ Arrow.null
  | some field ↦ field.data_type
]

-- What the task is given: the reader, the columns, the predicates and the schemas.
pub record Task : Type 0 where
  pub user_ctx : UserContext
  pub merged_policy : PolicyManifest
  pub assumed_role : Option String
  pub purpose : String
  pub fail_closed_mode : Option FailClosedMode
  pub requested_cols : List String
  pub projected_cols : List String
  pub policy_predicates : List Predicate
  pub unified_schema : Option (List Field)
  pub schema : List Field

module _ (lower : String → String) (arrow : Arrow) (kernels : Kernels arrow) (chrono : Chrono)
    (compute : Compute arrow) (hash : String → String) where
  open arrow use {Array, null_array}

  -- An opened file: its batches, and for each projected column whether it is encrypted, and its tags.
  pub record Opened : Type 0 where
    pub stream : List (Result ArrowError (Dict Array))
    pub physical_encryption_map : Dict Bool
    pub column_tags_map : Dict (List String)

  unfoldable pub arrays_of : Dict Array → List Array
  arrays_of [] = []
  arrays_of ((name, x) ∷ b) = x ∷ arrays_of b

  -- The columns that were asked for.
  unfoldable pub requested_part : List String → Dict Array → Dict Array
  requested_part requested [] = []
  requested_part requested ((name, x) ∷ b) =
      let rest = requested_part requested b in
      if member name requested then (name, x) ∷ rest else rest

  -- `Drop hidden projections`.
  unfoldable pub drop_hidden : Task → Dict Array → Result ArrowError (Dict Array)
  drop_hidden t b =
      if same_names t.projected_cols t.requested_cols
      then ok b
      else (let part = requested_part t.requested_cols b in
          map_err compute_error (compute.try_new part (arrays_of part)))

  unfoldable pub flag_of : String → Dict Bool → Bool
  flag_of name flags = elim (Dict.get name flags) [ none ↦ false | some flag ↦ flag ]

  unfoldable pub tags_of : String → Dict (List String) → List String
  tags_of name tags = elim (Dict.get name tags) [ none ↦ [] | some found ↦ found ]

  -- A column of the message: masked, or nulls if the batch does not have it.
  unfoldable pub masked_column : Task → Opened → Dict Array → String → Result ArrowError Array
  masked_column t file b name = elim (Dict.get name b) [
    | some array ↦
        map_err (λ e. external_error (show_governance_error e))
          (apply_rls lower arrow hash array t.user_ctx t.merged_policy name t.assumed_role
            (some t.purpose) t.fail_closed_mode (flag_of name file.physical_encryption_map)
            (tags_of name file.column_tags_map))
    | none ↦
        ok (
          null_array (missing_type t.unified_schema name) (num_rows arrow kernels chrono compute b))
  ]

  -- The loop over the columns: the first error ends it.
  unfoldable pub masked_columns :
      Task → Opened → Dict Array → List String → Result ArrowError (List Array)
  masked_columns t file b [] = ok []
  masked_columns t file b (name ∷ names) =
      let rest = masked_columns t file b names in
      and_then (masked_column t file b name) (λ x. and_then rest (λ xs. ok (x ∷ xs)))

  -- `RecordBatch::try_new` with a schema.
  pub record Outlet : Type 0 where
    pub try_new_schema : List Field → List Array → Result ArrowError (Dict Array)

  module _ (outlet : Outlet) where
    -- The message for a batch.
    unfoldable pub batch_message : Task → Opened → Dict Array → Result ArrowError (Dict Array)
    batch_message t file b =
        and_then
          (map_err filter_message (filter_batch arrow kernels chrono compute t.policy_predicates b))
          (λ filtered. and_then (drop_hidden t filtered) (λ visible.
            and_then (masked_columns t file visible t.requested_cols)
              (outlet.try_new_schema t.schema)))

    -- The messages for the batches of a file: the first error ends them.
    unfoldable pub stream_messages :
        Task
        → Opened
        → List (Result ArrowError (Dict Array))
        → List (Result ArrowError (Dict Array))
    stream_messages t file [] = []
    stream_messages t file (err e ∷ stream) = err e ∷ []
    stream_messages t file (ok b ∷ stream) =
        let rest = stream_messages t file stream in
        elim (batch_message t file b) [ err e ↦ err e ∷ [] | ok out ↦ ok out ∷ rest ]

    -- The messages of the task: a file that does not open ends them, an error within a file does not.
    unfoldable pub task_messages :
        Task → List (Result ArrowError Opened) → List (Result ArrowError (Dict Array))
    task_messages t [] = []
    task_messages t (err e ∷ files) = err e ∷ []
    task_messages t (ok file ∷ files) = stream_messages t file file.stream ++ task_messages t files
