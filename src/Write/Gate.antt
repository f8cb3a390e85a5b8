-- ===== src/Write/Gate.antt =====
-- holonomy-core/src/manager/write_orchestrator.rs: what `write` has checked and recorded before a file
-- is uploaded, and with which keys the file is written.
use holonomy_source.Common.{◌≡◌, ◌⊎◌, String, none, some, List, [], ◌∷◌, Has}
use holonomy_source.Common.Dict
use holonomy_source.Common.Dict.{Dict, get-insert}
use holonomy_source.Common.Result.{Result, ok}
use holonomy_source.Arrow.{Arrow}
use holonomy_source.Linter.{Engine, DataContract, Validator, from_json, validate}
use holonomy_source.Policy.{PolicyManifest}
use holonomy_source.Policy.Manager.{PolicyManager, Layer, discover_policies, merge_layers}
use holonomy_source.Policy.Manager
use holonomy_source.Policy.Encrypt.{resolve_columns_to_encrypt}
use holonomy_source.Audit
use holonomy_source.Crypto.{KmsProvider, Moka, CachedDek, metadata_bytes}
use holonomy_source.Crypto
use holonomy_source.Write.{
  WriteError, missing_purpose, Effect, pushed, uploaded, valid_purpose, contract_text, Outside,
}
use holonomy_source.Write.Orchestrator.{
  Inputs, State, Batch, check_write, properties, write_event, task, write_checked, write,
}
use holonomy_source.Write.Keys.{HasKey, IsProvided}

module _ (lower : String → String) (arrow : Arrow) (engine : Engine arrow) (policy : Manager.Codec)
    (codec : Crypto.Codec) (kms : KmsProvider) (moka : Moka CachedDek)
    (out : Outside lower arrow engine) (manager : PolicyManager) where
  -- What holds when a file is uploaded.
  pub record IsGated (i : Inputs (Batch lower arrow engine policy codec kms moka out manager))
      (s : State lower arrow engine policy codec kms moka) (effects : List Effect) : Type 0 where
    pub purpose : String
    pub text : String
    pub validator : Validator lower arrow engine
    pub policies : List Layer
    pub merged : PolicyManifest
    pub footer : CachedDek
    pub deks : Dict CachedDek
    pub purposed : valid_purpose missing_purpose i.purpose ≡ ok purpose
    pub contracted : contract_text i.canonical i.local_file i.explicit_contract_json ≡ ok text
    pub parsed : from_json lower arrow engine out.parse_contract text ≡ ok validator
    pub clean : validate lower arrow engine validator i.batch ≡ []
    pub discovered : discover_policies manager i.target ≡ ok policies
    pub merges : merge_layers policy manager policies ≡ ok merged
    pub footer_provided :
        IsProvided lower arrow engine policy codec kms moka out manager i.now
          validator.contract.name purpose i.user_hash s.write_dek_cache "__footer__" footer
    pub keyed :
        (c : String)
        → Has c (resolve_columns_to_encrypt lower arrow engine validator.contract merged)
        → (dek : CachedDek) × IsProvided lower arrow engine policy codec kms moka out manager i.now
            validator.contract.name purpose i.user_hash s.write_dek_cache c dek
          × (Dict.get c
                (properties lower arrow engine policy codec kms moka out manager validator.contract
                  footer deks).column_keys
              ≡ some
                  (dek.plaintext, metadata_bytes codec kms validator.contract.name c dek.wrapped))
    pub recorded :
        effects
        ≡ pushed (record {
          timestamp = i.now;
          user_hash = i.user_hash;
          file_signature = i.target;
          accessed_columns = none;
          business_purpose = purpose;
          action = Audit.write;
        })
          ∷ uploaded i.target
              (task lower arrow engine policy codec kms moka out manager i validator.contract footer
                deks).0
          ∷ []

  abbrev WriteInputs : Type 0
  WriteInputs = Inputs (Batch lower arrow engine policy codec kms moka out manager)

  abbrev WriteState : Type 0
  WriteState = State lower arrow engine policy codec kms moka

  abbrev write_ : WriteInputs → WriteState → WriteState × List Effect × Result WriteError (Unit {0})
  write_ = write lower arrow engine policy codec kms moka out manager

  abbrev checked :
      WriteInputs
      → String
      → DataContract lower arrow engine
      → List String
      → WriteState
      → WriteState × List Effect × Result WriteError (Unit {0})
  checked = write_checked lower arrow engine policy codec kms moka out manager

  abbrev check : WriteInputs → Result WriteError (Validator lower arrow engine × List String)
  check = check_write lower arrow engine policy codec kms moka out manager

  -- The keys of a write that gets to its upload.
  Keyed :
      WriteInputs
      → String
      → DataContract lower arrow engine
      → List String
      → moka.Cache
      → List Effect
      → Type 0
  Keyed i purpose contract columns start effects =
      (effects ≡ [])
      ⊎ ((footer : CachedDek) × (deks : Dict CachedDek) × IsProvided lower arrow engine policy codec
            kms moka out manager i.now contract.name purpose i.user_hash start "__footer__" footer
          × ((c : String)
              → Has c columns
              → HasKey lower arrow engine policy codec kms moka out manager i.now contract.name
                  purpose i.user_hash start c deks)
          × (effects
              ≡ pushed (write_event lower arrow engine policy codec kms moka out manager i purpose)
                ∷ uploaded i.target
                    (task lower arrow engine policy codec kms moka out manager i contract footer
                      deks).0
                ∷ []))

  -- What the checks of a write have established.
  record IsChecked (i : WriteInputs) (found : Validator lower arrow engine × List String)
      : Type 0 where
    text : String
    policies : List Layer
    merged : PolicyManifest
    contracted : contract_text i.canonical i.local_file i.explicit_contract_json ≡ ok text
    parsed : from_json lower arrow engine out.parse_contract text ≡ ok found.0
    clean : validate lower arrow engine found.0 i.batch ≡ []
    discovered : discover_policies manager i.target ≡ ok policies
    merges : merge_layers policy manager policies ≡ ok merged
    columns : resolve_columns_to_encrypt lower arrow engine found.0.contract merged ≡ found.1
