-- ===== src/Write.antt =====
-- holonomy-core/src/manager/write_orchestrator.rs: `WriteOrchestrator`. What it does to the outside is
-- a list of effects, in order. The parts of the program that it calls are those of the modules; the
-- Parquet writer, the random numbers, the answers of the uploader and the texts of errors are the
-- parameter `Outside`. Times are those of the clock when the call starts.
pub mod Channel
pub mod Sidecar
pub mod Orchestrator
pub mod Keys
pub mod Gate
pub mod Flush
mod Tests
use Prim.Native.Char.{code}
use holonomy_source.Common.{
  ℕ, suc, ◌+◌, ◌*◌, String, Bool, true, false, Option, none, some, List, [], ◌∷◌, ◌++◌, ◌==◌, trim,
  cons, is_empty, ◌<>◌, if◌then◌else◌,
}
use holonomy_source.Common.Dict
use holonomy_source.Common.Dict.{Dict}
use holonomy_source.Common.Result.{Result, ok, err, map_err, ◌>>=◌, ◌>>◌}
use holonomy_source.Arrow.{Arrow}
use holonomy_source.Linter.{
  Engine, LinterError, ColumnPolicy, DataContract, Validator, RecordBatch, from_json, validate,
}
use holonomy_source.Policy.{PolicyManifest}
use holonomy_source.Policy.Manager.{PolicyError, PolicyManager, discover_policies, merge_layers}
use holonomy_source.Policy.Manager
use holonomy_source.Policy.Encrypt.{resolve_columns_to_encrypt}
use holonomy_source.Audit.{AuditEvent, Action}
use holonomy_source.Audit
use holonomy_source.Crypto.{
  CryptoError, KmsProvider, Moka, CachedDek, generate_or_get_dek, metadata_bytes,
}
use holonomy_source.Crypto
use holonomy_source.Upload.{StreamItem, data_item, success}
use holonomy_source.Write.Channel.{write_task}
use holonomy_source.Write.Sidecar.{SidecarKeyEntry, SidecarMetadata, add_to_sidecar}

pub data WriteError : Type 0 where
  missing_purpose missing_contract audit_failed : WriteError
  invalid_contract encryption_failed upload_failed serialization_error : String → WriteError
  lint_failed : List LinterError → WriteError

pub data Effect : Type 0 where
  pushed : AuditEvent → Effect
  uploaded : String → List StreamItem → Effect

-- The purpose without the space around it, if it is not empty.
unfoldable pub valid_purpose : {E : Type 0} → E → Option String → Result E String
valid_purpose missing none = err missing
valid_purpose missing (some p) = if is_empty (trim p) then err missing else ok (trim p)

-- The text of the contract: that of the registry, or else of the local file, or else the explicit one.
unfoldable pub contract_text :
    Option String → Option String → Option String → Result WriteError String
contract_text (some canonical) local explicit = ok canonical
contract_text none (some local) explicit = ok local
contract_text none none (some explicit) = ok explicit
contract_text none none none = err missing_contract

-- The text before the last slash, where there is one.
unfoldable pub before_last_slash : String → Option String
before_last_slash String.[] = none
before_last_slash (String.◌∷◌ c s) = elim (before_last_slash s) [
  | some t ↦ some (cons c t)
  | none ↦ if code c == 47 then some "" else none
]

-- `if let Some(idx) = target.rfind('/') { &target[..idx] } else { target }`
unfoldable pub partition_root : String → String
partition_root target = elim (before_last_slash target) [ some root ↦ root | none ↦ target ]

-- `s.trim_end_matches('/')`
unfoldable pub trim_end_slashes : String → String
trim_end_slashes String.[] = ""
trim_end_slashes (String.◌∷◌ c s) =
    let rest = trim_end_slashes s in
    elim rest [ String.[] ↦ if code c == 47 then "" else cons c "" | other ↦ cons c other ]

-- `tags.join(",")`
unfoldable pub join : String → List String → String
join sep [] = ""
join sep (s ∷ []) = s
join sep (s ∷ t ∷ rest) = s <> (sep <> join sep (t ∷ rest))

-- What the Parquet writer is given: the footer key, a key for each column to encrypt, each with its
-- metadata, and the tags of the columns.
pub record WriterProperties : Type 0 where
  pub footer_key : List ℕ
  pub footer_metadata : List ℕ
  pub column_keys : Dict (List ℕ × List ℕ)
  pub key_value_metadata : Option (List (String × String))

-- The entries of the sidecar for the keys of the columns.
unfoldable pub column_entries : (List ℕ → String) → String → Dict CachedDek → List SidecarKeyEntry
column_entries encode purpose [] = []
column_entries encode purpose ((column, dek) ∷ deks) =
    record { purpose = purpose; column = column; wrapped_dek = encode dek.wrapped }
    ∷ column_entries encode purpose deks

module _ (lower : String → String) (arrow : Arrow) (engine : Engine arrow) where
  -- The tags of the columns that have some, for the metadata of the file.
  unfoldable pub tag_metadata : List (ColumnPolicy lower arrow engine) → List (String × String)
  tag_metadata [] = []
  tag_metadata (col ∷ cols) =
      let rest = tag_metadata cols in
      elim col.tags [
        | none ↦ rest
        | some [] ↦ rest
        | some (tag ∷ tags) ↦ ("holonomy.tags." <> col.name, join "," (tag ∷ tags)) ∷ rest
      ]

  pub record Outside : Type 0 where
    pub parse_contract : String → Result String (DataContract lower arrow engine)
    pub show_policy_error : PolicyError → String
    pub show_crypto_error : CryptoError → String
    -- The bytes of the random number generator, by the number of the draw.
    pub raw_keys : ℕ → List ℕ
    -- The writes that the Parquet writer makes, and whether it then fails by itself.
    pub serialize :
        WriterProperties → RecordBatch lower arrow engine → List (List ℕ) × Result String (Unit {0})
    -- Whether the receiver takes a chunk, by its number, and how the upload of a stream ends.
    pub is_open : ℕ → Bool
    pub upload_stream : String → List StreamItem → Result String (Unit {0})
