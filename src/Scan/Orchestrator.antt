-- ===== src/Scan/Orchestrator.antt =====
-- holonomy-core/src/manager/scan_orchestrator.rs: `ScanOrchestrator::scan`, from its checks to the
-- messages of its task. The warming of the key cache from a sidecar is left out. The crate parquet, with
-- the storage and the keys behind it, is the parameter `Outside`.
use holonomy_source.Common.{ℕ, String, Bool, Option, none, some, List, [], ◌∷◌, ◌++◌, map}
use holonomy_source.Common.Dict.{Dict}
use holonomy_source.Common.Result.{Result, ok, err, and_then, map_err}
use holonomy_source.Arrow.{Arrow}
use holonomy_source.Auth.{UserContext, identity}
use holonomy_source.Policy.{PolicyManifest}
use holonomy_source.Policy.Manager.{
  PolicyError, PolicyManager, discover_policies, verify_signatures, merge_layers,
}
use holonomy_source.Policy.Manager
use holonomy_source.Governance.{FailClosedMode}
use holonomy_source.Linter.{Engine, DataContract, from_json, to_arrow_schema}
use holonomy_source.Linter
use holonomy_source.Crypto.{CryptoError}
use holonomy_source.Audit.{AuditEvent}
use holonomy_source.Audit
use holonomy_source.Predicate.{Predicate, Metadata, get_pruned_row_groups}
use holonomy_source.Predicate.Parse.{panics, returns}
use holonomy_source.Filter.{Kernels, Chrono}
use holonomy_source.Write.{valid_purpose, join}
use holonomy_source.Read.{Answer, ◌>>=◌, active_policy, policy_predicates, hidden_cols, column_tags}
use holonomy_source.Read.Batches.{Compute}
use holonomy_source.Scan.Columns.{
  field_names, missing_scan_column, requested_cols, project_hidden, final_field, first_existing,
  scan_indices, is_encrypted, map_columns,
}
use holonomy_source.Scan.{ArrowError, external_error, Field, Task, Opened, Outlet, task_messages}

-- The arguments of `scan`, and the time of its clock.
pub record Inputs : Type 0 where
  pub targets : List String
  pub purpose : Option String
  pub user_ctx : UserContext
  pub columns : Option (List String)
  pub predicates : List Predicate
  pub contract_json : Option String
  pub target_schema : Option (List Field)
  pub assumed_role : Option String
  pub fail_closed_mode : Option FailClosedMode
  pub now : ℕ

-- A file whose footer is read: the names of its leaf columns, the fields of its Arrow schema, the
-- metadata for pruning, whether the chunks of its first row group are encrypted, and its stream of
-- batches for a projection and some row groups.
pub record File (Array : Type 0) : Type 0 where
  pub all_columns : List String
  pub fields : List Field
  pub metadata : Metadata
  pub first_group : Option (ℕ → Bool)
  pub key_value_metadata : Option (List (String × Option String))
  pub build : List ℕ → List ℕ → Result String (List (Result ArrowError (Dict Array)))

unfoldable pub scan_event : Inputs → String → List String → AuditEvent
scan_event i purpose projected = record {
  timestamp = i.now;
  user_hash = identity i.user_ctx;
  file_signature = join "," i.targets;
  accessed_columns = some projected;
  business_purpose = purpose;
  action = Audit.read;
}

module _ (lower : String → String) (arrow : Arrow) (engine : Engine arrow) (policy : Manager.Codec)
    (kernels : Kernels arrow) (chrono : Chrono) (compute : Compute arrow) (hash : String → String)
    (outlet : Outlet lower arrow kernels chrono compute hash) where
  open arrow use {Array}

  pub record Outside : Type 1 where
    pub Props : Type 0
    pub parse_contract : String → Result String (DataContract lower arrow engine)
    pub show_policy_error : PolicyError → String
    pub show_crypto_error : CryptoError → String
    -- `get_decryption_properties`, for a user.
    pub get_decryption_properties : String → Result CryptoError Props
    -- `ParquetRecordBatchStreamBuilder::new_with_options`; the error is its text.
    pub open_file : Props → String → Result String (File Array)

  unfoldable pub copy_fields : List (Linter.Field lower arrow engine) → List Field
  copy_fields [] = []
  copy_fields (f ∷ fs) =
      record { name = f.name; data_type = f.data_type; nullable = f.nullable } ∷ copy_fields fs

  -- The stream of a file, with the maps that its columns are masked by.
  unfoldable pub open_stream :
      Task
      → List Predicate
      → File Array
      → Result ArrowError (Opened lower arrow kernels chrono compute hash)
  open_stream t combined_predicates file =
      let names = field_names file.fields in
      let groups =
        get_pruned_row_groups file.metadata (first_existing t.projected_cols file.all_columns)
          combined_predicates in
      and_then (map_err external_error (file.build (scan_indices names t.projected_cols) groups))
        (λ stream. ok (record {
          stream = stream;
          physical_encryption_map =
              map_columns (is_encrypted names file.first_group) t.projected_cols [];
          column_tags_map = map_columns (column_tags file.key_value_metadata) t.projected_cols [];
        }))

  module _ (out : Outside) (manager : PolicyManager) where
    unfoldable pub scan_policy : String → Result String PolicyManifest
    scan_policy target =
        and_then (map_err out.show_policy_error (discover_policies manager target)) (λ policies.
          and_then (map_err out.show_policy_error (verify_signatures policy manager policies))
            (λ parsed. map_err out.show_policy_error (merge_layers policy manager policies)))

    -- `unified_schema`.
    unfoldable pub target_fields :
        Option (List Field) → Option String → Result String (Option (List Field))
    target_fields (some ts) contract = ok (some ts)
    target_fields none none = ok none
    target_fields none (some json) =
        and_then (from_json lower arrow engine out.parse_contract json) (λ validator.
          and_then (to_arrow_schema lower arrow engine validator)
            (λ fields. ok (some (copy_fields fields))))

    unfoldable pub first_target : List String → Result String String
    first_target [] = err "No targets provided"
    first_target (t ∷ ts) = ok t

    -- The task for a reader, a first file and its predicates.
    unfoldable pub task_for :
        Inputs → String → PolicyManifest → Option (List Field) → File Array → List Predicate → Task
    task_for i purpose merged unified file preds =
        let requested = requested_cols i.columns unified file.all_columns in
        record {
          user_ctx = i.user_ctx;
          merged_policy = merged;
          assumed_role = i.assumed_role;
          purpose = purpose;
          fail_closed_mode = i.fail_closed_mode;
          requested_cols = requested;
          projected_cols = project_hidden (hidden_cols preds) requested;
          policy_predicates = preds;
          unified_schema = unified;
          schema = map (final_field unified file.fields) requested;
        }

    -- The files behind the first one, which the task opens.
    unfoldable pub open_rest :
        Task
        → List Predicate
        → out.Props
        → List String
        → List (Result ArrowError (Opened lower arrow kernels chrono compute hash))
    open_rest t combined props [] = []
    open_rest t combined props (target ∷ targets) =
        and_then (map_err external_error (out.open_file props target)) (open_stream t combined)
        ∷ open_rest t combined props targets

    -- What `scan` has before its task starts: the task, the properties and the first file.
    unfoldable pub plan_scan : Inputs → Answer String (Task × (out.Props × File Array))
    plan_scan i = do
      purpose ← returns (valid_purpose "Missing purpose" i.purpose)
      target ← returns (first_target i.targets)
      merged ← returns (scan_policy target)
      props ←
          returns
            (map_err out.show_crypto_error (out.get_decryption_properties (identity i.user_ctx)))
      file ← returns (out.open_file props target)
      unified ← returns (target_fields i.target_schema i.contract_json)
      preds ←
          policy_predicates missing_scan_column file.all_columns
            (active_policy i.user_ctx merged i.assumed_role purpose)
      returns (ok (task_for i purpose merged unified file preds, (props, file)))

    unfoldable pub opened_files :
        Inputs
        → Task
        → out.Props
        → File Array
        → List (Result ArrowError (Opened lower arrow kernels chrono compute hash))
    opened_files i t props file =
        let combined = i.predicates ++ t.policy_predicates in
        open_stream t combined file
        ∷ elim i.targets [ [] ↦ [] | (first ∷ rest) ↦ open_rest t combined props rest ]

    -- `ScanOrchestrator::scan`: the event, and the schema and the messages of the reader.
    unfoldable pub scan :
        Inputs
        → List AuditEvent × Answer String (List Field × List (Result ArrowError (Dict Array)))
    scan i = elim (plan_scan i) [
      | panics ↦ ([], panics)
      | returns (err e) ↦ ([], returns (err e))
      | returns (ok (t, (props, file))) ↦ (
        scan_event i t.purpose t.projected_cols ∷ [],
        returns (
            ok (
              t.schema,
              task_messages lower arrow kernels chrono compute hash outlet t
                  (opened_files i t props file),
            )),
      )
    ]
