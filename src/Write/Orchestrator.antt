-- ===== src/Write/Orchestrator.antt =====
-- holonomy-core/src/manager/write_orchestrator.rs: `WriteOrchestrator::write` and `flush_partition`.
use holonomy_source.Common.{ℕ, suc, ◌*◌, String, Option, none, some, List, [], ◌∷◌, ◌<>◌, as_bytes}
use holonomy_source.Common.Dict
use holonomy_source.Common.Dict.{Dict}
use holonomy_source.Common.Result.{Result, ok, err, map_err, ◌>>=◌, ◌>>◌}
use holonomy_source.Arrow.{Arrow}
use holonomy_source.Linter.{Engine, DataContract, Validator, RecordBatch, from_json, validate}
use holonomy_source.Policy.Manager.{PolicyManager, discover_policies, merge_layers}
use holonomy_source.Policy.Manager
use holonomy_source.Policy.Encrypt.{resolve_columns_to_encrypt}
use holonomy_source.Audit.{AuditEvent}
use holonomy_source.Audit
use holonomy_source.Crypto.{KmsProvider, Moka, CachedDek, generate_or_get_dek, metadata_bytes}
use holonomy_source.Crypto
use holonomy_source.Upload.{StreamItem, data_item, success}
use holonomy_source.Write.{
  WriteError, missing_purpose, invalid_contract, encryption_failed, upload_failed,
  serialization_error, lint_failed, Effect, pushed, uploaded, valid_purpose, contract_text,
  partition_root, trim_end_slashes, WriterProperties, column_entries, tag_metadata, Outside,
}
use holonomy_source.Write.Channel.{write_task}
use holonomy_source.Write.Sidecar.{SidecarKeyEntry, SidecarMetadata, add_to_sidecar}

-- `5 * 1024 * 1024`
abbrev pub chunk_size : ℕ
chunk_size = 5 * 1024 * 1024

-- The arguments of `write`, with the contracts of the registry and of the local file.
pub record Inputs (Batch : Type 0) : Type 0 where
  pub batch : Batch
  pub target : String
  pub purpose : Option String
  pub user_hash : String
  pub canonical : Option String
  pub local_file : Option String
  pub explicit_contract_json : Option String
  pub now : ℕ

module _ (lower : String → String) (arrow : Arrow) (engine : Engine arrow) (policy : Manager.Codec)
    (codec : Crypto.Codec) (kms : KmsProvider) (moka : Moka CachedDek) where
  pub record State : Type 0 where
    pub sidecar_deks : Dict SidecarMetadata
    pub write_dek_cache : moka.Cache

  module _ (out : Outside lower arrow engine) (manager : PolicyManager) where
    abbrev pub Batch : Type 0
    Batch = RecordBatch lower arrow engine

    -- The checks of `write`: the contract, and the columns to encrypt.
    unfoldable pub check_write :
        Inputs Batch → Result WriteError (Validator lower arrow engine × List String)
    check_write i = do
      text ← contract_text i.canonical i.local_file i.explicit_contract_json
      validator ←
          map_err (λ e. invalid_contract ("Invalid contract: " <> e))
            (from_json lower arrow engine out.parse_contract text)
      elim (validate lower arrow engine validator i.batch) [
        | [] ↦ ok tt
        | (e ∷ es) ↦ err (lint_failed (e ∷ es))
      ]
      policies ←
          map_err (λ e. encryption_failed ("Policy discovery failed: " <> out.show_policy_error e))
            (discover_policies manager i.target)
      merged ←
          map_err (λ e. encryption_failed ("Policy merge failed: " <> out.show_policy_error e))
            (merge_layers policy manager policies)
      ok (validator, resolve_columns_to_encrypt lower arrow engine validator.contract merged)

    -- A key of `generate_or_get_dek`, with the error as `write` shows it.
    unfoldable pub dek_for :
        ℕ
        → ℕ
        → String
        → String
        → String
        → String
        → moka.Cache
        → moka.Cache × Result WriteError CachedDek
    dek_for now draw dataset purpose column user cache =
        let (after, r) =
          generate_or_get_dek codec kms moka now (out.raw_keys draw) dataset purpose column user
            cache in
        (after, map_err (λ e. encryption_failed (out.show_crypto_error e)) r)

    -- The loop over the columns to encrypt; `draw` numbers the random keys.
    unfoldable pub column_deks :
        ℕ
        → ℕ
        → String
        → String
        → String
        → List String
        → Dict CachedDek
        → moka.Cache
        → moka.Cache × Result WriteError (Dict CachedDek)
    column_deks now draw dataset purpose user [] deks cache = (cache, ok deks)
    column_deks now draw dataset purpose user (column ∷ columns) deks cache =
        let made = dek_for now draw dataset purpose column user cache in
        elim made.1 [
          | err e ↦ (made.0, err e)
          | ok dek ↦
              column_deks now (suc draw) dataset purpose user columns (Dict.insert column dek deks)
                made.0
        ]

    -- `PmeEncryptor::get_writer_properties_builder`, for the columns.
    unfoldable pub column_keys : String → Dict CachedDek → Dict (List ℕ × List ℕ)
    column_keys dataset [] = []
    column_keys dataset ((column, dek) ∷ deks) =
        (column, (dek.plaintext, metadata_bytes codec kms dataset column dek.wrapped))
        ∷ column_keys dataset deks

    unfoldable pub properties :
        DataContract lower arrow engine → CachedDek → Dict CachedDek → WriterProperties
    properties contract footer deks = record {
      footer_key = footer.plaintext;
      footer_metadata = metadata_bytes codec kms contract.name "__footer__" footer.wrapped;
      column_keys = column_keys contract.name deks;
      key_value_metadata = elim (tag_metadata lower arrow engine contract.columns) [
        | [] ↦ none
        | (t ∷ ts) ↦ some (t ∷ ts)
      ];
    }

    -- The audit event of a write.
    unfoldable pub write_event : Inputs Batch → String → AuditEvent
    write_event i purpose = record {
      timestamp = i.now;
      user_hash = i.user_hash;
      file_signature = i.target;
      accessed_columns = none;
      business_purpose = purpose;
      action = Audit.write;
    }

    -- The entries of the keys of a write.
    unfoldable pub entries : String → CachedDek → Dict CachedDek → List SidecarKeyEntry
    entries purpose footer deks =
        record {
          purpose = purpose;
          column = "__footer__";
          wrapped_dek = codec.encode footer.wrapped;
        }
        ∷ column_entries codec.encode purpose deks

    -- The stream of the write task, and its result.
    unfoldable pub task :
        Inputs Batch
        → DataContract lower arrow engine
        → CachedDek
        → Dict CachedDek
        → List StreamItem × Result String (Unit {0})
    task i contract footer deks =
        let (writes, closing) = out.serialize (properties contract footer deks) i.batch in
        write_task out.is_open chunk_size writes closing

    -- `write`, once the keys are there: the keys go to the sidecar, the event is pushed, and the
    -- file is uploaded while it is written. The error of the writer comes before that of the upload.
    unfoldable pub write_file :
        Inputs Batch
        → String
        → DataContract lower arrow engine
        → CachedDek
        → Dict CachedDek
        → State
        → State × List Effect × Result WriteError (Unit {0})
    write_file i purpose contract footer deks s =
        let (items, written) = task i contract footer deks in
        (
          record s {
            sidecar_deks =
                add_to_sidecar (partition_root i.target) (entries purpose footer deks)
                  s.sidecar_deks;
          },
          pushed (write_event i purpose) ∷ uploaded i.target items ∷ [],
          do
            map_err serialization_error written
            map_err upload_failed (out.upload_stream i.target items),
        )

    -- `write` after its checks.
    unfoldable pub write_checked :
        Inputs Batch
        → String
        → DataContract lower arrow engine
        → List String
        → State
        → State × List Effect × Result WriteError (Unit {0})
    write_checked i purpose contract columns s =
        let footer =
          dek_for i.now 0 contract.name purpose "__footer__" i.user_hash s.write_dek_cache in
        elim footer.1 [
          | err e ↦ (record s { write_dek_cache = footer.0 }, [], err e)
          | ok footer_dek ↦
              let made =
                column_deks i.now 1 contract.name purpose i.user_hash columns [] footer.0 in
              let after = record s { write_dek_cache = made.0 } in
              elim made.1 [
                | err e ↦ (after, [], err e)
                | ok deks ↦ write_file i purpose contract footer_dek deks after
              ]
        ]

    -- `WriteOrchestrator::write`.
    unfoldable pub write : Inputs Batch → State → State × List Effect × Result WriteError (Unit {0})
    write i s = elim (valid_purpose missing_purpose i.purpose) [
      | err e ↦ (s, [], err e)
      | ok purpose ↦ elim (check_write i) [
        | err e ↦ (s, [], err e)
        | ok (validator, columns) ↦ write_checked i purpose validator.contract columns s
      ]
    ]

    -- `WriteOrchestrator::flush_partition`, with the text of a sidecar.
    unfoldable pub flush_partition :
        (SidecarMetadata → Result String String)
        → String
        → State
        → State × List Effect × Result WriteError (Unit {0})
    flush_partition to_string root s = elim (Dict.get root s.sidecar_deks) [
      | none ↦ (s, [], ok tt)
      | some sidecar ↦
          let after = record s { sidecar_deks = Dict.remove root s.sidecar_deks } in
          elim (to_string sidecar) [
            | err e ↦ (after, [], err (serialization_error e))
            | ok json ↦
                let key = trim_end_slashes root <> "/_holonomy_keys.json" in
                let items = data_item (as_bytes json) ∷ success ∷ [] in
                (
                  after,
                  uploaded key items ∷ [],
                  map_err upload_failed (out.upload_stream key items),
                )
          ]
    ]
