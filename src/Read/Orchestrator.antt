-- ===== src/Read/Orchestrator.antt =====
-- holonomy-core/src/manager/read_orchestrator.rs: `ReadOrchestrator::read`, with the events that it
-- pushes, in order. The crate parquet, with the storage and the keys behind it, is the parameter
-- `Outside`.
use holonomy_source.Common.{
  ℕ, String, Bool, Option, none, some, List, [], ◌∷◌, contains, member, str_eq, if◌then◌else◌,
}
use holonomy_source.Common.Dict.{Dict}
use holonomy_source.Common.Result.{Result, ok, err, map_err, ok_or, and_then}
use holonomy_source.Arrow.{Arrow}
use holonomy_source.Auth.{UserContext, identity}
use holonomy_source.Policy.{PolicyManifest}
use holonomy_source.Policy.Manager.{
  PolicyManager, discover_policies, verify_signatures, merge_layers,
}
use holonomy_source.Policy.Manager
use holonomy_source.Governance.{FailClosedMode, apply_rls}
use holonomy_source.Linter.{Engine, DataContract, Field, from_json, to_arrow_schema}
use holonomy_source.Crypto.{CryptoError, kms_failed}
use holonomy_source.Audit.{AuditEvent}
use holonomy_source.Audit
use holonomy_source.Predicate.{Predicate, Metadata, position, get_pruned_row_groups}
use holonomy_source.Predicate.Parse.{panics, returns}
use holonomy_source.Filter.{Kernels, Chrono}
use holonomy_source.Write.{valid_purpose}
use holonomy_source.Read.{
  missing_filter_column, ReadError, missing_purpose, policy_failed, governance_failed,
  ingestion_failed, crypto_failed, parquet, parse_failed, Answer, ◌>>=◌, active_policy,
  policy_predicates, hidden_cols, project, column_tags, is_physically_encrypted,
}
use holonomy_source.Read.Batches.{Compute, Batch, collect_arrays}

-- The arguments of `read`, and the time of its clock.
pub record Inputs : Type 0 where
  pub target : String
  pub purpose : Option String
  pub user_ctx : UserContext
  pub column_to_read : String
  pub contract_json : Option String
  pub assumed_role : Option String
  pub fail_closed_mode : Option FailClosedMode
  pub now : ℕ

-- An opened file: the names of its leaf columns and of the fields of its Arrow schema, the metadata
-- for pruning, whether the chunks of the row groups are encrypted, and its stream of batches for a
-- projection and some row groups.
pub record File (Array : Type 0) : Type 0 where
  pub num_rows : ℕ
  pub file_cols : List String
  pub fields : List String
  pub metadata : Metadata
  pub encrypted : List (List Bool)
  pub key_value_metadata : Option (List (String × Option String))
  pub build : List ℕ → List ℕ → Result String (List (Result String (Dict Array)))

-- The event of a read.
unfoldable pub read_event : Inputs → String → AuditEvent
read_event i purpose = record {
  timestamp = i.now;
  user_hash = identity i.user_ctx;
  file_signature = i.target;
  accessed_columns = none;
  business_purpose = purpose;
  action = Audit.read;
}

module _ (lower : String → String) (arrow : Arrow) (engine : Engine arrow) (policy : Manager.Codec)
    (kernels : Kernels arrow) (chrono : Chrono) (compute : Compute arrow)
    (hash : String → String) where
  open arrow use {Array, null_array}

  pub record Outside : Type 1 where
    pub Props : Type 0
    pub parse_contract : String → Result String (DataContract lower arrow engine)
    -- `get_decryption_properties`, for a user.
    pub get_decryption_properties : String → Result CryptoError Props
    -- `ParquetRecordBatchStreamBuilder::new_with_options`, which reads and decrypts the footer; the
    -- error is its text.
    pub open_file : Props → String → Result String (File Array)

  module _ (out : Outside) (manager : PolicyManager) where
    -- The checks of `read` before the file: the purpose and the merged policy.
    unfoldable pub merged_policy : Inputs → Result ReadError PolicyManifest
    merged_policy i =
        and_then (map_err policy_failed (discover_policies manager i.target)) (λ policies.
          and_then (map_err policy_failed (verify_signatures policy manager policies))
            (λ parsed. map_err policy_failed (merge_layers policy manager policies)))

    -- `unified_schema`.
    unfoldable pub unified_schema :
        Option String → Answer ReadError (Option (List (Field lower arrow engine)))
    unified_schema none = returns (ok none)
    unified_schema (some json) = do
      validator ← returns (
          map_err (λ e. ingestion_failed (parse_failed e))
            (from_json lower arrow engine out.parse_contract json))
      schema ← returns (
          map_err (λ e. ingestion_failed (parse_failed e))
            (to_arrow_schema lower arrow engine validator))
      returns (ok (some schema))

    -- `us.field_with_name(name)`.
    unfoldable pub field_with_name :
        String → List (Field lower arrow engine) → Option (Field lower arrow engine)
    field_with_name name [] = none
    field_with_name name (f ∷ fs) = if str_eq f.name name then some f else field_with_name name fs

    -- The column of nulls, for a column that only the contract has.
    unfoldable pub absent_column :
        Inputs → Option (List (Field lower arrow engine)) → File Array → Option Array
    absent_column i none file = none
    absent_column i (some us) file =
        if member i.column_to_read file.file_cols
        then none
        else elim (field_with_name i.column_to_read us) [
          | none ↦ none
          | some field ↦ some (null_array field.data_type file.num_rows)
        ]

    -- The batches of the column and of the columns that the filters need.
    unfoldable pub stream_of :
        Inputs
        → File Array
        → List Predicate
        → ℕ
        → Result ReadError (List (Result String (Batch arrow kernels chrono compute)))
    stream_of i file preds column_idx =
        map_err (λ e. ingestion_failed (parquet e))
          (file.build (project file.fields (hidden_cols preds) (column_idx ∷ []))
            (get_pruned_row_groups file.metadata i.column_to_read preds))

    -- `concat`, where a batch is left.
    unfoldable pub concat_arrays : List Array → Result ReadError Array
    concat_arrays [] = err (ingestion_failed (parse_failed "No batches found"))
    concat_arrays (x ∷ xs) =
        map_err (λ e. ingestion_failed (parse_failed e)) (compute.concat (x ∷ xs))

    -- The column, read, filtered and masked.
    unfoldable pub read_column :
        Inputs → String → PolicyManifest → File Array → List Predicate → Answer ReadError Array
    read_column i purpose merged file preds = do
      column_idx ← returns (
          ok_or (position 0 i.column_to_read file.fields)
            (ingestion_failed (parse_failed "Column not found")))
      stream ← returns (stream_of i file preds column_idx)
      arrays ← returns (collect_arrays arrow kernels chrono compute preds i.column_to_read stream)
      decrypted_array ← returns (concat_arrays arrays)
      encrypted ← is_physically_encrypted file.encrypted column_idx
      returns (
          map_err governance_failed (
            apply_rls lower arrow hash decrypted_array i.user_ctx merged i.column_to_read
              i.assumed_role (some purpose) i.fail_closed_mode encrypted
              (column_tags file.key_value_metadata i.column_to_read)))

    -- The rest of `read`, from the filters of the policy on.
    unfoldable pub read_filtered :
        Inputs
        → String
        → PolicyManifest
        → File Array
        → Option (List (Field lower arrow engine))
        → List Predicate
        → List AuditEvent × Answer ReadError Array
    read_filtered i purpose merged file unified preds = elim (absent_column i unified file) [
      | some nulls ↦ ([], returns (ok nulls))
      | none ↦ elim (read_column i purpose merged file preds) [
        | panics ↦ ([], panics)
        | returns (err e) ↦ ([], returns (err e))
        | returns (ok output) ↦ (read_event i purpose ∷ [], returns (ok output))
      ]
    ]

    -- The schema of the contract and the predicates of the policy.
    unfoldable pub plan_read :
        Inputs
        → String
        → PolicyManifest
        → File Array
        → Answer ReadError (Option (List (Field lower arrow engine)) × List Predicate)
    plan_read i purpose merged file = do
      unified ← unified_schema i.contract_json
      preds ←
          policy_predicates missing_filter_column file.file_cols
            (active_policy i.user_ctx merged i.assumed_role purpose)
      returns (ok (unified, preds))

    -- `read` on an opened file.
    unfoldable pub read_file :
        Inputs → String → PolicyManifest → File Array → List AuditEvent × Answer ReadError Array
    read_file i purpose merged file = elim (plan_read i purpose merged file) [
      | panics ↦ ([], panics)
      | returns (err e) ↦ ([], returns (err e))
      | returns (ok (unified, preds)) ↦ read_filtered i purpose merged file unified preds
    ]

    -- A file that does not open: a failure of the key service is recorded.
    unfoldable pub open_failed : Inputs → String → String → List AuditEvent × Answer ReadError Array
    open_failed i purpose e =
        if contains e "KMS Failed"
        then (read_event i purpose ∷ [], returns (err (crypto_failed (kms_failed e))))
        else ([], returns (err (ingestion_failed (parquet e))))

    -- `ReadOrchestrator::read`.
    unfoldable pub read : Inputs → List AuditEvent × Answer ReadError Array
    read i = elim (valid_purpose missing_purpose i.purpose) [
      | err e ↦ ([], returns (err e))
      | ok purpose ↦ elim (merged_policy i) [
        | err e ↦ ([], returns (err e))
        | ok merged ↦ elim (out.get_decryption_properties (identity i.user_ctx)) [
          | err e ↦ (read_event i purpose ∷ [], returns (err (crypto_failed e)))
          | ok props ↦ elim (out.open_file props i.target) [
            | err e ↦ open_failed i purpose e
            | ok file ↦ read_file i purpose merged file
          ]
        ]
      ]
    ]
