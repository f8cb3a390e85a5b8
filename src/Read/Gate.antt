-- ===== src/Read/Gate.antt =====
-- holonomy-core/src/manager/read_orchestrator.rs: what `read` has checked and recorded when it ends.
use holonomy_source.Common.{
  ℕ, ◌≡◌, ◌⊎◌, String, false, none, some, List, [], ◌∷◌, Bool, member, get_elem?, arith,
}
use holonomy_source.Common.Result.{Result, ok, err, map_err-eq-ok, ok_or, ok_or-eq-ok}
use holonomy_source.Arrow.{Arrow}
use holonomy_source.Auth.{identity}
use holonomy_source.Policy.{PolicyManifest}
use holonomy_source.Policy.Manager.{PolicyManager}
use holonomy_source.Policy.Manager
use holonomy_source.Governance.{apply_rls}
use holonomy_source.Linter.{Engine, Field}
use holonomy_source.Audit.{AuditEvent}
use holonomy_source.Audit
use holonomy_source.Predicate.{get_pruned_row_groups, Predicate, position}
use holonomy_source.Predicate.Parse.{returns}
use holonomy_source.Filter.{Kernels, Chrono}
use holonomy_source.Write.{valid_purpose}
use holonomy_source.Read.{
  ReadError, missing_purpose, crypto_failed, Answer, is_physically_encrypted, returns-injective,
  >>=-eq-ok, missing_filter_column, active_policy, policy_predicates, column_tags, hidden_cols,
  project,
}
use holonomy_source.Read.Batches.{Compute, Batch, collect_arrays}
use holonomy_source.Read.Layers.{IsMerged, stream_of-eq-ok}
use holonomy_source.Read.Tags.{IsTags, column_tags-IsTags, IsFirst, position-IsFirst}
use holonomy_source.Read.Orchestrator.{
  Inputs, File, Outside, unified_schema, field_with_name, stream_of, concat_arrays, read_column,
  read,
}

-- The flag of a column of the first row group, or false where there is none.
abbrev pub IsObserved : List (List Bool) → ℕ → Bool → Type 0
IsObserved [] idx encrypted = encrypted ≡ false
IsObserved (group ∷ groups) idx encrypted = get_elem? group idx ≡ some encrypted

is_physically_encrypted-IsObserved :
    (groups : List (List Bool)) (idx : ℕ) {encrypted : Bool}
    → is_physically_encrypted groups idx ≡ returns (ok encrypted)
    → IsObserved groups idx encrypted
unfolding is_physically_encrypted
is_physically_encrypted-IsObserved [] idx h = cc
is_physically_encrypted-IsObserved (group ∷ groups) idx h = ground (arith, h)

-- The one event of a read.
abbrev pub IsReadEvent : Inputs → String → List AuditEvent → Type 0
IsReadEvent i purpose events =
    events
    ≡ (record {
      timestamp = i.now;
      user_hash = identity i.user_ctx;
      file_signature = i.target;
      accessed_columns = none;
      business_purpose = purpose;
      action = Audit.read;
    })
      ∷ []

module _ (lower : String → String) (arrow : Arrow) (engine : Engine arrow) (policy : Manager.Codec)
    (kernels : Kernels arrow) (chrono : Chrono) (compute : Compute arrow) (hash : String → String)
    (out : Outside lower arrow engine policy kernels chrono compute hash)
    (manager : PolicyManager) where
  open arrow use {Array, null_array}

  abbrev column_of :
      Inputs → String → PolicyManifest → File Array → List Predicate → Answer ReadError Array
  column_of = read_column lower arrow engine policy kernels chrono compute hash out manager

  abbrev pub read_ : Inputs → List AuditEvent × Answer ReadError Array
  read_ = read lower arrow engine policy kernels chrono compute hash out manager

  -- What holds on an opened file.
  pub record IsOpened (i : Inputs) (purpose : String) (merged : PolicyManifest) (file : File Array)
      : Type 0 where
    pub props : out.Props
    pub purposed : valid_purpose missing_purpose i.purpose ≡ ok purpose
    pub merges : IsMerged policy manager i.target merged
    pub keyed : out.get_decryption_properties (identity i.user_ctx) ≡ ok props
    pub found : out.open_file props i.target ≡ ok file

  -- What holds of a column that is read from the file.
  pub record IsMasked (i : Inputs) (purpose : String) (merged : PolicyManifest) (file : File Array)
      (output : Array) : Type 0 where
    pub preds : List Predicate
    pub idx : ℕ
    pub stream : List (Result String (Batch arrow kernels chrono compute))
    pub arrays : List Array
    pub joined : Array
    pub encrypted : Bool
    pub tags : List String
    pub planned :
        policy_predicates missing_filter_column file.file_cols
          (active_policy i.user_ctx merged i.assumed_role purpose)
        ≡ returns (ok preds)
    pub positioned : IsFirst i.column_to_read file.fields idx
    pub streamed :
        file.build
          (project file.fields (hidden_cols preds) (idx ∷ []))
          (get_pruned_row_groups file.metadata i.column_to_read preds)
        ≡ ok stream
    pub collected :
        collect_arrays arrow kernels chrono compute preds i.column_to_read stream ≡ ok arrays
    pub nonempty : ¬ (arrays ≡ [])
    pub concatenated : compute.concat arrays ≡ ok joined
    pub observed : IsObserved file.encrypted idx encrypted
    pub tagged : IsTags file.key_value_metadata i.column_to_read tags
    pub masked :
        apply_rls lower arrow hash joined i.user_ctx merged i.column_to_read i.assumed_role
          (some purpose)
          i.fail_closed_mode
          encrypted
          tags
        ≡ ok output

  concat_arrays-eq-ok :
      (arrays : List Array) {joined : Array}
      → concat_arrays lower arrow engine policy kernels chrono compute hash out manager arrays
        ≡ ok joined
      → (¬ (arrays ≡ [])) × (compute.concat arrays ≡ ok joined)
  unfolding concat_arrays
  concat_arrays-eq-ok [] h = cc
  concat_arrays-eq-ok (x ∷ xs) h = (λ e. cc, map_err-eq-ok _ (compute.concat (x ∷ xs)) h)

  pub read_column-IsMasked :
      (i : Inputs) (purpose : String) (merged : PolicyManifest) (file : File Array)
      (preds : List Predicate) (output : Array)
      → policy_predicates missing_filter_column file.file_cols
          (active_policy i.user_ctx merged i.assumed_role purpose)
        ≡ returns (ok preds)
      → column_of i purpose merged file preds ≡ returns (ok output)
      → IsMasked i purpose merged file output
  unfolding read_column
  read_column-IsMasked i purpose merged file preds output p h =
      let (idx, h1, k1) =
        >>=-eq-ok (returns (ok_or (position 0 i.column_to_read file.fields) _)) _ h in
      let (stream, h2, k2) =
        >>=-eq-ok
          (returns (
            stream_of lower arrow engine policy kernels chrono compute hash out manager i file preds
              idx))
          _ k1 in
      let (arrays, h3, k3) =
        >>=-eq-ok
          (returns (collect_arrays arrow kernels chrono compute preds i.column_to_read stream)) _
          k2 in
      let (joined, h4, k4) =
        >>=-eq-ok
          (returns (
            concat_arrays lower arrow engine policy kernels chrono compute hash out manager arrays))
          _ k3 in
      let (encrypted, h5, k5) = >>=-eq-ok (is_physically_encrypted file.encrypted idx) _ k4 in
      record {
        preds = preds;
        idx = idx;
        stream = stream;
        arrays = arrays;
        joined = joined;
        encrypted = encrypted;
        planned = p;
        tags = column_tags file.key_value_metadata i.column_to_read;
        positioned =
            position-IsFirst i.column_to_read file.fields idx
              (ok_or-eq-ok (position 0 i.column_to_read file.fields) _ (returns-injective h1));
        streamed =
            stream_of-eq-ok lower arrow engine policy kernels chrono compute hash out manager i file
              preds idx (returns-injective h2);
        collected = returns-injective h3;
        nonempty = (concat_arrays-eq-ok arrays (returns-injective h4)).0;
        concatenated = (concat_arrays-eq-ok arrays (returns-injective h4)).1;
        observed = is_physically_encrypted-IsObserved file.encrypted idx h5;
        tagged = column_tags-IsTags file.key_value_metadata i.column_to_read;
        masked = map_err-eq-ok _ _ (returns-injective k5);
      }

  -- What holds of a column that only the contract has.
  pub record IsAbsent (i : Inputs) (file : File Array) (output : Array) : Type 0 where
    pub schema : List (Field lower arrow engine)
    pub field : Field lower arrow engine
    pub contracted :
        unified_schema lower arrow engine policy kernels chrono compute hash out manager
          i.contract_json
        ≡ returns (ok (some schema))
    pub missing : member i.column_to_read file.file_cols ≡ false
    pub named :
        field_with_name lower arrow engine policy kernels chrono compute hash out manager
          i.column_to_read schema
        ≡ some field
    pub nulls : output ≡ null_array field.data_type file.num_rows

  -- The events of a read, by its result.
  abbrev pub Accounted : Inputs → List AuditEvent → Answer ReadError Array → Type 0
  Accounted i events (returns (ok output)) =
      (purpose : String) × (merged : PolicyManifest) × (file : File Array) × IsOpened i purpose
        merged file
      × ((IsReadEvent i purpose events × IsMasked i purpose merged file output)
          ⊎ ((events ≡ []) × IsAbsent i file output))
  Accounted i events (returns (err (crypto_failed e))) =
      (purpose : String) × (valid_purpose missing_purpose i.purpose ≡ ok purpose)
      × IsReadEvent i purpose events
  Accounted i events answer = events ≡ []

  abbrev pub Good : Inputs → List AuditEvent × Answer ReadError Array → Type 0
  Good i r = Accounted i r.0 r.1
