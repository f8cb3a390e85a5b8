-- ===== src/Scan/Account.antt =====
-- holonomy-core/src/manager/scan_orchestrator.rs: what `scan` has checked and recorded when it ends.
use holonomy_source.Common.{◌≡◌, ◌⊎◌, String, Option, none, some, List, [], map, ◌∷◌, Has}
use holonomy_source.Common
use holonomy_source.Common.Dict.{Dict}
use holonomy_source.Common.Result.{Result, ok, map_err}
use holonomy_source.Arrow.{Arrow}
use holonomy_source.Auth.{identity}
use holonomy_source.Policy.{PolicyManifest}
use holonomy_source.Policy.Manager.{PolicyManager}
use holonomy_source.Policy.Manager
use holonomy_source.Linter.{Engine}
use holonomy_source.Audit.{AuditEvent}
use holonomy_source.Audit
use holonomy_source.Predicate.{Predicate}
use holonomy_source.Predicate.Parse.{returns}
use holonomy_source.Filter.{Kernels, Chrono}
use holonomy_source.Write.{valid_purpose, join}
use holonomy_source.Read.{Answer, active_policy, policy_predicates, hidden_cols}
use holonomy_source.Read.Layers.{IsMerged}
use holonomy_source.Read.Batches.{Compute}
use holonomy_source.Scan.{ArrowError, Field, Task, Outlet}
use holonomy_source.Scan.Files.{IsDisplayed}
use holonomy_source.Scan.Orchestrator.{
  Inputs, File, Outside, target_fields, first_target, plan_scan, scan,
}
use holonomy_source.Scan.Columns.{missing_scan_column, requested_cols}

-- What is asked for: the columns of the call, or else of the unified schema, or else of the file.
abbrev pub IsRequested :
    Option (List String) → Option (List Field) → List String → List String → Type 0
IsRequested (some cols) unified all_columns requested = requested ≡ cols
IsRequested none (some fields) all_columns requested =
    requested ≡ map (λ (f : Field). f.name) fields
IsRequested none none all_columns requested = requested ≡ all_columns

module _ (lower : String → String) (arrow : Arrow) (engine : Engine arrow) (policy : Manager.Codec)
    (kernels : Kernels arrow) (chrono : Chrono) (compute : Compute arrow) (hash : String → String)
    (outlet : Outlet lower arrow kernels chrono compute hash)
    (out : Outside lower arrow engine policy kernels chrono compute hash outlet)
    (manager : PolicyManager) where
  open arrow use {Array}

  abbrev plan : Inputs → Answer String (Task × (out.Props × File Array))
  plan = plan_scan lower arrow engine policy kernels chrono compute hash outlet out manager

  abbrev Reader : Type 0
  Reader = List Field × List (Result ArrowError (Dict Array))

  abbrev pub scan_ : Inputs → List AuditEvent × Answer String Reader
  scan_ = scan lower arrow engine policy kernels chrono compute hash outlet out manager

  abbrev Planned : Type 0
  Planned = Task × (out.Props × File Array)

  -- The task is for the reader, in the role and for the purpose of the call, under the merged policy.
  pub record IsTask (i : Inputs) (purpose : String) (merged : PolicyManifest)
      (unified : Option (List Field)) (preds : List Predicate) (t : Task) : Type 0 where
    pub user : t.user_ctx ≡ i.user_ctx
    pub under : t.merged_policy ≡ merged
    pub role : t.assumed_role ≡ i.assumed_role
    pub why : t.purpose ≡ purpose
    pub mode : t.fail_closed_mode ≡ i.fail_closed_mode
    pub filters : t.policy_predicates ≡ preds
    pub typed : t.unified_schema ≡ unified

  -- What the checks of a scan have established.
  pub record IsPlanned (i : Inputs) (found : Planned) : Type 0 where
    pub target : String
    pub purpose : String
    pub merged : PolicyManifest
    pub unified : Option (List Field)
    pub preds : List Predicate
    pub targeted :
        first_target lower arrow engine policy kernels chrono compute hash outlet out manager
          i.targets
        ≡ ok target
    pub purposed : valid_purpose {E = String} "Missing purpose" i.purpose ≡ ok purpose
    pub merges : IsMerged policy manager target merged
    pub keyed :
        map_err out.show_crypto_error (out.get_decryption_properties (identity i.user_ctx))
        ≡ ok found.1.0
    pub opened : out.open_file found.1.0 target ≡ ok found.1.1
    pub schemed :
        target_fields lower arrow engine policy kernels chrono compute hash outlet out manager
          i.target_schema i.contract_json
        ≡ ok unified
    pub filtered :
        policy_predicates missing_scan_column found.1.1.all_columns
          (active_policy i.user_ctx merged i.assumed_role purpose)
        ≡ returns (ok preds)
    pub tasked : IsTask i purpose merged unified preds found.0
    pub asked : IsRequested i.columns unified found.1.1.all_columns found.0.requested_cols
    pub named :
        (c : String)
        → Has c found.0.requested_cols ⊎ Has c (hidden_cols preds)
        → Has c found.0.projected_cols

  -- What holds when a reader is returned.
  pub record IsScanned (i : Inputs) (events : List AuditEvent) (reader : Reader) : Type 0 where
    pub found : Planned
    pub planned : IsPlanned i found
    pub recorded :
        events
        ≡ (record {
          timestamp = i.now;
          user_hash = identity i.user_ctx;
          file_signature = join "," i.targets;
          accessed_columns = some found.0.projected_cols;
          business_purpose = planned.purpose;
          action = Audit.read;
        })
          ∷ []
    pub schema : reader.0 ≡ found.0.schema
    pub sent :
        (batch : Dict Array)
        → Has (ok batch) reader.1
        → IsDisplayed lower arrow engine policy kernels chrono compute hash outlet out manager i
            found.0 found.1.0 batch

  -- The events of a scan, by its result.
  abbrev pub Ends : Inputs → List AuditEvent × Answer String Reader → Type 0
  Ends i (events, returns (ok reader)) = IsScanned i events reader
  Ends i (events, answer) = events ≡ []
