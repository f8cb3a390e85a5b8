-- ===== src/Read/Account.antt =====
-- holonomy-core/src/manager/read_orchestrator.rs: every end of `read` is accounted for.
use holonomy_source.Common.{String, Option, List}
use holonomy_source.Common.Result.{Result}
use holonomy_source.Arrow.{Arrow}
use holonomy_source.Policy.{PolicyManifest}
use holonomy_source.Policy.Manager.{PolicyManager}
use holonomy_source.Policy.Manager
use holonomy_source.Linter.{Engine, Field}
use holonomy_source.Audit.{AuditEvent}
use holonomy_source.Predicate.{Predicate}
use holonomy_source.Filter.{Kernels, Chrono}
use holonomy_source.Read.{ReadError, Answer}
use holonomy_source.Read.Batches.{Compute}
use holonomy_source.Read.Orchestrator.{
  Inputs, File, Outside, merged_policy, absent_column, read_column, read_filtered, plan_read,
  read_file, read,
}
use holonomy_source.Read.Gate.{IsOpened, IsMasked, IsAbsent, Good}

module _ (lower : String → String) (arrow : Arrow) (engine : Engine arrow) (policy : Manager.Codec)
    (kernels : Kernels arrow) (chrono : Chrono) (compute : Compute arrow) (hash : String → String)
    (out : Outside lower arrow engine policy kernels chrono compute hash)
    (manager : PolicyManager) where
  open arrow use {Array}

  abbrev column_of :
      Inputs → String → PolicyManifest → File Array → List Predicate → Answer ReadError Array
  column_of = read_column lower arrow engine policy kernels chrono compute hash out manager

  abbrev Plan : Type 0
  Plan = Option (List (Field lower arrow engine)) × List Predicate

  abbrev plan :
      Inputs
      → String
      → PolicyManifest
      → File Array
      → Answer ReadError (Option (List (Field lower arrow engine)) × List Predicate)
  plan = plan_read lower arrow engine policy kernels chrono compute hash out manager

  abbrev absent : Inputs → Option (List (Field lower arrow engine)) → File Array → Option Array
  absent = absent_column lower arrow engine policy kernels chrono compute hash out manager

  abbrev filtered :
      Inputs
      → String
      → PolicyManifest
      → File Array
      → Option (List (Field lower arrow engine))
      → List Predicate
      → List AuditEvent × Answer ReadError Array
  filtered = read_filtered lower arrow engine policy kernels chrono compute hash out manager

  abbrev opened :
      Inputs → String → PolicyManifest → File Array → List AuditEvent × Answer ReadError Array
  opened = read_file lower arrow engine policy kernels chrono compute hash out manager

  abbrev read_ : Inputs → List AuditEvent × Answer ReadError Array
  read_ = read lower arrow engine policy kernels chrono compute hash out manager

  abbrev policy_of : Inputs → Result ReadError PolicyManifest
  policy_of = merged_policy lower arrow engine policy kernels chrono compute hash out manager

  abbrev Absent : Inputs → File Array → Array → Type 0
  Absent = IsAbsent lower arrow engine policy kernels chrono compute hash out manager

  abbrev Masked : Inputs → String → PolicyManifest → File Array → Array → Type 0
  Masked = IsMasked lower arrow engine policy kernels chrono compute hash out manager

  abbrev FileOpened : Inputs → String → PolicyManifest → File Array → Type 0
  FileOpened = IsOpened lower arrow engine policy kernels chrono compute hash out manager

  abbrev Fits : Inputs → List AuditEvent × Answer ReadError Array → Type 0
  Fits = Good lower arrow engine policy kernels chrono compute hash out manager
